-- ===== src/Discover/Outcome.antt =====
-- The status that the report of a finished job leads to.
use mathlib.Core.Option.{some-injective}
use ava_capture.Base.{⊤, String, ◌≡◌, refl, Bool, true, false, Option, none, some, List, [], ◌∷◌}
use ava_capture.Farm.{Env, Farm, Job, Status, failed, success, waiting, is, ok, for_each}
use ava_capture.Requests.{flag}
use ava_capture.Discover.Report.{ChildInfo, FinishedJob}
use ava_capture.Discover.{outcome_by, outcome}

-- The status that a report leads to; a failure without its `exception` is a KeyError. The children
-- of a yielding job are created by the job itself, so a client of this repository sends none.
abbrev status_by : Option (List ChildInfo) → Bool → Option String → Option Status
status_by (some infos) succeeded exception = some waiting
status_by none true exception = some success
status_by none false none = none
status_by none false (some text) = some failed

abbrev pub reported_status : FinishedJob → Option Status
reported_status f = status_by f.children (flag f.success) f.exception

-- A report with no child to create.
abbrev CreatesNone : Option (List ChildInfo) → Type 0
CreatesNone none = ⊤
CreatesNone (some []) = ⊤
CreatesNone (some (_ ∷ _)) = ⊥

abbrev pub NoSpawn : FinishedJob → Type 0
NoSpawn f = CreatesNone f.children

-- What a job is saved as: the reported status, under its key and its parent.
abbrev pub Reported : Env → FinishedJob → Status → Job → Farm → Type 0
Reported env f s j w =
    (done : Job) × (outcome env f j w ≡ (ok done, w))
    × (done.status ≡ s)
    × (done.id ≡ j.id)
    × (done.parent ≡ j.parent)

pub outcome-Reported :
    (env : Env) (f : FinishedJob) (s : Status) (j : Job) (w : Farm)
    → NoSpawn f
    → reported_status f ≡ some s
    → Reported env f s j w
unfolding outcome for_each
outcome-Reported env f s j w = go f.children (flag f.success) f.exception
  where
    go :
        (children : Option (List ChildInfo)) (succeeded : Bool) (exception : Option String)
        → CreatesNone children
        → status_by children succeeded exception ≡ some s
        → (done : Job) × (outcome_by env children succeeded exception j w ≡ (ok done, w))
          × (done.status ≡ s)
          × (done.id ≡ j.id)
          × (done.parent ≡ j.parent)
    go (some []) b x plain e =
        (record j { status = waiting }, refl, some-injective waiting s e, refl, refl)
    go (some (i ∷ is)) b x plain e = absurd plain
    go none true x plain e = (
      record j { status = success; end_time = some env.now },
      refl,
      some-injective success s e,
      refl,
      refl,
    )
    go none false none plain e = absurd (cc)
    go none false (some text) plain e = (
      record j { status = failed; exception = some text; end_time = some env.now },
      refl,
      some-injective failed s e,
      refl,
      refl,
    )
