-- ===== src/Discover/Lost.antt =====
-- Jobs that the database takes for running and the client no longer has.
use ava_capture.Base.{
  All, ⊤, ℕ, suc, ◌≡◌, ◌≢◌, refl, sym, subst, Bool, true, false, ◌||◌, inl, inr, some, List, [],
  ◌∷◌, arith, In, select-In, select, Bool-cases, and_split,
}
use ava_capture.Base.Table.{save, In-save, In-save_unique}
use ava_capture.Farm.{
  Env, Farm, Job, Node, running, terminating, is, failed, job_key, Result, ok, >>=-ok, for_each,
  save_job,
}
use ava_capture.Parent.{is_dead, fail_lost, cleanup_dead_jobs}
use ava_capture.Parent.Verdict.{IsStored}
use ava_capture.Parent.Sound.{is_live, IsSound, IsStored-save, save-IsSound}
use ava_capture.Parent.Keeping.{KeptBySaves, Sound, on_job_changed-Sound}
use ava_capture.Discover.{is_lost, fail_lost_jobs}

-- Each live row of `jobs` was there in `before`, and none has the key of a job in `gone`.
abbrev pub Clears : List Job → List Job → List Job → Type 0
Clears before gone jobs =
    (b : Job)
    → In b jobs
    → is_live b.status ≡ true
    → In b before × ((d : Job) → In d gone → b.id ≢ d.id)

abbrev Stored : List Job → List Job → Type 0
Stored todo jobs = All (λ j. IsStored jobs j.parent) todo

Stored-save :
    (j : Job) (todo jobs : List Job) → Stored todo jobs → Stored todo (save job_key j jobs)
Stored-save j [] jobs h = tt
Stored-save j (t ∷ todo) jobs h = (IsStored-save j t.parent jobs h.0, Stored-save j todo jobs h.1)

module _ (before gone todo : List Job) where
  abbrev Pending : List Job → Type 0
  Pending jobs = Clears before gone jobs × Stored todo jobs

  Pending-KeptBySaves : KeptBySaves Pending
  Pending-KeptBySaves j jobs h idle = (
    λ b m live. elim (In-save job_key j b jobs m) [
      | inl e ↦ absurd (cc)
      | inr older ↦ h.0 b older live
    ],
    Stored-save j todo jobs h.1,
  )

module _ (env : Env) (fuel : ℕ) (before : List Job) where
  -- One round: the job is failed, and no live row has its key any more.
  fail_lost-Clears :
      (j : Job) (gone todo : List Job) (w : Farm)
      → IsSound w.jobs
      → Pending before gone (j ∷ todo) w.jobs
      → Sound
          (Pending before (j ∷ gone) todo)
          (Pending-KeptBySaves before (j ∷ gone) todo)
          (fail_lost env (suc (suc fuel)) j w)
  unfolding fail_lost save_job
  fail_lost-Clears j gone todo w sound (clear, stored) =
      on_job_changed-Sound (Pending before (j ∷ gone) todo)
        (Pending-KeptBySaves before (j ∷ gone) todo) env fuel lost marked
        (save-IsSound lost w.jobs sound stored.0) (cleared, Stored-save lost todo w.jobs stored.1)
        (IsStored-save lost j.parent w.jobs stored.0)
    where
      lost : Job
      lost = record j { status = failed }

      marked : Farm
      marked = record w { jobs = save job_key lost w.jobs }

      cleared : Clears before (j ∷ gone) (save job_key lost w.jobs)
      cleared b m live = elim (In-save_unique job_key lost b w.jobs sound.unique m) [
        | inl e ↦ absurd (cc)
        | inr (older, other) ↦ (
          (clear b older live).0,
          λ d there. elim there [
            | inl e ↦ rw e other
            | inr earlier ↦ (clear b older live).1 d earlier
          ],
        )
      ]

  fail_all-Clears :
      (todo gone : List Job) (w : Farm)
      → IsSound w.jobs
      → Pending before gone todo w.jobs
      → let (r, w') = for_each (fail_lost env (suc (suc fuel))) todo w in
        (r ≡ ok tt) × IsSound w'.jobs × Clears before gone w'.jobs × Clears before todo w'.jobs
  unfolding for_each
  fail_all-Clears [] gone w sound (clear, stored) =
      (refl, sound, clear, λ b m live. ((clear b m live).0, λ d none_there. elim none_there [ ]))
  fail_all-Clears (j ∷ todo) gone w sound pending =
      let rest = fail_all-Clears todo (j ∷ gone) after first.1 first.2 in
      subst Done (sym reached) (
        rest.0,
        rest.1,
        (λ b m live. ((rest.2 b m live).0, λ d there. (rest.2 b m live).1 d (inr there))),
        (λ b m live. (
          (rest.2 b m live).0,
          λ d there. elim there [
            | inl e ↦ (rest.2 b m live).1 d (inl e)
            | inr later ↦ (rest.3 b m live).1 d later
          ],
        )),
      )
    where
      Done : Result ⊤ × Farm → Type 0
      Done (r, w') =
          (r ≡ ok tt)
          × IsSound w'.jobs
          × Clears before gone w'.jobs
          × Clears before (j ∷ todo) w'.jobs

      first :
          Sound
            (Pending before (j ∷ gone) todo)
            (Pending-KeptBySaves before (j ∷ gone) todo)
            (fail_lost env (suc (suc fuel)) j w)
      first = fail_lost-Clears j gone todo w sound pending

      after : Farm
      after = (fail_lost env (suc (suc fuel)) j w).1

      reached :
          for_each (fail_lost env (suc (suc fuel))) (j ∷ todo) w
          ≡ for_each (fail_lost env (suc (suc fuel))) todo after
      reached =
          >>=-ok (fail_lost env (suc (suc fuel)) j)
            (λ _. for_each (fail_lost env (suc (suc fuel))) todo) w (λ i. (first.0 i, after))

select-Stored :
    (p : Job → Bool) (jobs : List Job) (all : List Job)
    → All (λ j. IsStored all j.parent) jobs
    → Stored (select p jobs) all
unfolding select
select-Stored p [] all h = tt
select-Stored p (j ∷ jobs) all h = elim (Bool-cases (p j)) [
  | inl hit ↦ rw hit (h.0, select-Stored p jobs all h.1)
  | inr miss ↦ rw miss (select-Stored p jobs all h.1)
]

-- A report with the list of running jobs brings the database in line with the client: the view goes
-- on, and no job is left that is running or terminating on the node and not in that list.
pub fail_lost_jobs_agree :
    (env : Env) (fuel node : ℕ) (keys : List ℕ) (w : Farm)
    → IsSound w.jobs
    → let (r, w') = fail_lost_jobs env (suc (suc fuel)) node (some keys) w in
      (r ≡ ok tt) × IsSound w'.jobs × ((j : Job) → In j w'.jobs → is_lost node keys j ≡ false)
unfolding fail_lost_jobs
fail_lost_jobs_agree env fuel node keys w sound =
    let todo = select (is_lost node keys) w.jobs in
    let done = fail_all-Clears env fuel w.jobs todo [] w sound (
      (λ b m live. (m, λ d none_there. elim none_there [ ])),
      select-Stored (is_lost node keys) w.jobs w.jobs sound.parents,
    ) in
    (
      done.0,
      done.1,
      λ j m. elim (Bool-cases (is_lost node keys j)) [
        | inr agreed ↦ agreed
        | inl lost ↦
            let (was, other) = done.3 j m (ground arith) in
            absurd (other j (select-In (is_lost node keys) j w.jobs was lost) refl)
      ],
    )

dead-is_live :
    (env : Env) (nodes : List Node) (j : Job) → is_dead env nodes j ≡ true → is_live j.status ≡ true
dead-is_live env nodes j dead =
    let (live, _) = and_split (is running j.status || is terminating j.status) _ dead in
    ground arith

-- `cleanup_dead_jobs` goes through, and leaves no running or terminating job of a node that was last
-- seen more than two hours ago.
pub cleanup_dead_jobs_clears :
    (env : Env) (fuel : ℕ) (w : Farm)
    → IsSound w.jobs
    → let (r, w') = cleanup_dead_jobs env (suc (suc fuel)) w in
      (r ≡ ok tt) × IsSound w'.jobs × ((j : Job) → In j w'.jobs → is_dead env w.nodes j ≡ false)
unfolding cleanup_dead_jobs
cleanup_dead_jobs_clears env fuel w sound =
    let todo = select (is_dead env w.nodes) w.jobs in
    let done = fail_all-Clears env fuel w.jobs todo [] w sound (
      (λ b m live. (m, λ d none_there. elim none_there [ ])),
      select-Stored (is_dead env w.nodes) w.jobs w.jobs sound.parents,
    ) in
    (
      done.0,
      done.1,
      λ j m. elim (Bool-cases (is_dead env w.nodes j)) [
        | inr alive ↦ alive
        | inl dead ↦
            let (was, other) = done.3 j m (dead-is_live env w.nodes j dead) in
            absurd (other j (select-In (is_dead env w.nodes) j w.jobs was dead) refl)
      ],
    )
