-- ===== src/Discover/Finished.antt =====
-- What the report of a finished job does to the statuses in the database.
use mathlib.Core.Option
use mathlib.Core.Option.{some-injective}
use ava_capture.Base.{
  ⊤, ℕ, suc, ◌≡◌, ◌≢◌, ◌==◌, refl, ◌∙◌, sym, ap, subst, if◌then◌else◌, Bool, true, false, inl, inr,
  some, List, [], ◌∷◌, All-In, Bool-cases, ==→eq,
}
use ava_capture.Base.Table.{find, find-In, find_self, find-save, save}
use ava_capture.Farm.{
  Env, Farm, Job, Status, job_key, Action, >>=-ok, ◌>>◌, ◌>>=◌, except_missing, get_job,
  get_job-found, save_job,
}
use ava_capture.Parent.{on_job_changed}
use ava_capture.Parent.Verdict.{IsStored, status_of, next_status, child_statuses}
use ava_capture.Parent.Settling.{Settles, on_job_changed-Settles}
use ava_capture.Parent.Sound.{IsSound, save-IsSound}
use ava_capture.Discover.Report.{FinishedJob}
use ava_capture.Discover.Machine.{given}
use ava_capture.Discover.{outcome, finish_job}
use ava_capture.Discover.Outcome.{reported_status, NoSpawn, Reported, outcome-Reported}

-- The table with the reported status on the row of the job.
abbrev pub with_status : Status → Job → List Job → List Job
with_status s j jobs = save job_key (record j { status = s }) jobs

-- Two copies of a job that agree on key, parent and status leave the same statuses behind.
module _ (a b : Job) (key : a.id ≡ b.id) (parent : a.parent ≡ b.parent)
    (status : a.status ≡ b.status) where
  child_statuses-save_same :
      (k : ℕ) (jobs : List Job)
      → child_statuses k (save job_key a jobs) ≡ child_statuses k (save job_key b jobs)
  unfolding child_statuses save
  child_statuses-save_same k [] = rw (parent, status) refl
  child_statuses-save_same k (x ∷ xs) = elim (Bool-cases (x.id == b.id)) [
    | inl hit ↦ rw (key, hit, parent, status) refl
    | inr miss ↦ rw (key, miss, child_statuses-save_same k xs) refl
  ]

  status_of-save_equal :
      (k : ℕ) (jobs : List Job)
      → status_of k (save job_key a jobs) ≡ status_of k (save job_key b jobs)
  unfolding status_of
  status_of-save_equal k jobs =
      ap (Option.map read) (find-save job_key k a jobs)
      ∙ ap (λ i. Option.map read (if i == k then some a else find job_key k jobs)) key
      ∙ go (b.id == k)
      ∙ sym (ap (Option.map read) (find-save job_key k b jobs))
    where
      read : Job → Status
      read i = i.status

      go :
          (t : Bool)
          → Option.map (λ (i : Job). i.status) (if t then some a else find job_key k jobs)
            ≡ Option.map (λ i. i.status) (if t then some b else find job_key k jobs)
      go true = ap some status
      go false = refl

  next_status-save_same :
      (q : Job) (jobs : List Job)
      → next_status q (save job_key a jobs) ≡ next_status q (save job_key b jobs)
  unfolding next_status
  next_status-save_same q jobs = rw (child_statuses-save_same q.id jobs) refl

forgiven-Settles :
    (p : ℕ) (s : Status) (jobs : List Job) (m : Action ⊤) (w : Farm)
    → Settles p s jobs (m w)
    → Settles p s jobs (except_missing m w)
forgiven-Settles p s jobs m w (returns, rows) = (rw returns refl, rows)

module _ (env : Env) (fuel : ℕ) (f : FinishedJob) (s : Status) (j q : Job) (p : ℕ) (w : Farm) where
  -- What the reports of a stored job's end comes to, from the new copy of the job on.
  saved-Settles :
      (done : Job)
      → IsSound w.jobs
      → (done.status ≡ s)
      → (done.id ≡ j.id)
      → (done.parent ≡ j.parent)
      → find job_key j.id w.jobs ≡ some j
      → j.parent ≡ some p
      → find job_key p w.jobs ≡ some q
      → j.id ≢ p
      → Settles p
          (next_status q (with_status s j w.jobs))
          (with_status s j w.jobs)
          ((save_job done >> on_job_changed env (suc (suc fuel)) done) w)
  unfolding save_job
  saved-Settles done sound status key parent there is_parent row other =
      let own =
        All-In (λ i. IsStored w.jobs i.parent) w.jobs j sound.parents
          (find-In job_key j.id j w.jobs there).0 in
      let settled =
        on_job_changed-Settles env after fuel p done q
          (save-IsSound done w.jobs sound (subst (IsStored w.jobs) (sym parent) own)).parents
          (parent ∙ is_parent) kept in
      subst
        (λ t. Settles p t (with_status s j w.jobs) (on_job_changed env (suc (suc fuel)) done after))
        (next_status-save_same done (record j { status = s }) key parent status q w.jobs)
        (
          settled.0,
          λ k.
              settled.1 k
              ∙ ap (λ o. if p == k then some (next_status q after.jobs) else o)
                  (status_of-save_equal done (record j { status = s }) key parent status k w.jobs),
        )
    where
      after : Farm
      after = record w { jobs = save job_key done w.jobs }

      kept : find job_key p (save job_key done w.jobs) ≡ some q
      kept = elim (Bool-cases (done.id == p)) [
        | inl same ↦ absurd (other (sym key ∙ ==→eq done.id p same))
        | inr apart ↦ find-save job_key p done w.jobs ∙ rw apart row
      ]

  -- A stored job that a client reports as finished gets the reported status, its parent the
  -- verdict on its children, and no other job changes its status. The report asks for no child.
  pub finish_job-Settles :
      IsSound w.jobs
      → find job_key f.job_id w.jobs ≡ some j
      → NoSpawn f
      → reported_status f ≡ some s
      → j.parent ≡ some p
      → find job_key p w.jobs ≡ some q
      → j.id ≢ p
      → Settles p
          (next_status q (with_status s j w.jobs))
          (with_status s j w.jobs)
          (finish_job env (suc (suc fuel)) f w)
  unfolding finish_job
  finish_job-Settles sound there plain reported is_parent row other =
      forgiven-Settles p (next_status q (with_status s j w.jobs)) (with_status s j w.jobs) whole w (
        subst (Settles p (next_status q (with_status s j w.jobs)) (with_status s j w.jobs))
          (sym steps)
          (saved-Settles done sound status key parent (find_self job_key f.job_id j w.jobs there)
            is_parent row other))
    where
      shown : Job
      shown = record j { progress = some (given f.progress "") }

      story : Reported env f s shown w
      story = outcome-Reported env f s shown w plain reported

      done : Job
      done = story.0

      status : done.status ≡ s
      status = story.2

      key : done.id ≡ j.id
      key = story.3

      parent : done.parent ≡ j.parent
      parent = story.4

      close : Job → Action ⊤
      close d = save_job d >> on_job_changed env (suc (suc fuel)) d

      finish : Job → Action ⊤
      finish i = outcome env f (record i { progress = some (given f.progress "") }) >>= close

      whole : Action ⊤
      whole = get_job f.job_id >>= finish

      steps : whole w ≡ close done w
      steps =
          >>=-ok (get_job f.job_id) finish w (get_job-found f.job_id j w there)
          ∙ >>=-ok (outcome env f shown) close w story.1
