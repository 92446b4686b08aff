-- ===== src/Discover/Stranded.antt =====
-- A job that yields to children that have ended before it reports so.
use ava_capture.Base.{
  ⊤, ℕ, ◌≡◌, refl, ◌∙◌, sym, ap, subst, Bool, true, false, ◌&&◌, none, some, List, [], arith,
  ==_refl, count_where,
}
use ava_capture.Base.Table.{find, find-In, find_self, save, count_where-save}
use ava_capture.Farm.{
  Env, Farm, Job, Status, waiting, success, failed, is, job_key, Action, Result, ok, >>=-ok, ◌>>=◌,
  ◌>>◌, refers, except_missing, get_job, get_job-found, save_job, for_each,
}
use ava_capture.Parent.{
  is_child, all_settled, on_job_changed, job_notification, with_parent, changed_with,
  update_parent_job,
}
use ava_capture.Parent.Verdict.{status_of, status_of-save_job}
use ava_capture.Parent.Depth.{job_notification-notices, sent_after}
use ava_capture.Discover.Report.{FinishedJob}
use ava_capture.Discover.Machine.{given}
use ava_capture.Discover.{outcome, finish_job}

-- A job of no parent is not counted among the children of any job.
count_where-save_root :
    (p : Job → Bool) (a old : Job) (jobs : List Job)
    → find job_key a.id jobs ≡ some old
    → p a ≡ false
    → p old ≡ false
    → count_where p (save job_key a jobs) ≡ count_where p jobs
count_where-save_root p a old jobs there new before =
    let moved = count_where-save job_key p a old jobs there in ground arith

module _ (k : ℕ) (a old : Job) (jobs : List Job) (there : find job_key a.id jobs ≡ some old)
    (root_a : a.parent ≡ none) (root_old : old.parent ≡ none) where
  not_child : (j : Job) → j.parent ≡ none → is_child k j ≡ false
  not_child j e = ap (λ o. refers o k) e

  not_counted : (s : Status) (j : Job) → j.parent ≡ none → (is_child k j && is s j.status) ≡ false
  not_counted s j e = ap (λ b. b && is s j.status) (not_child j e)

  all_settled-save_root : all_settled k (save job_key a jobs) ≡ all_settled k jobs
  unfolding all_settled
  all_settled-save_root =
      let all =
        count_where-save_root (is_child k) a old jobs there (not_child a root_a)
          (not_child old root_old) in
      let count = λ (s : Status).
        count_where-save_root (λ c. is_child k c && is s c.status) a old jobs there
          (not_counted s a root_a) (not_counted s old root_old) in
      rw (all, count success, count failed) refl

-- The job waits, though all its children have ended.
abbrev pub Stranded : ℕ → Result ⊤ × Farm → Type 0
Stranded k (r, w) =
    (r ≡ ok tt) × (status_of k w.jobs ≡ some waiting) × (all_settled k w.jobs ≡ true)

forgiven-Stranded :
    (k : ℕ) (m : Action ⊤) (w : Farm) → Stranded k (m w) → Stranded k (except_missing m w)
forgiven-Stranded k m w (returns, waits, ended) = (rw returns refl, waits, ended)

module _ (env : Env) (fuel : ℕ) (f : FinishedJob) (j : Job) (w : Farm) where
  -- The new copy of a job that has yielded to children that it has launched itself.
  abbrev yielding : Job
  yielding = record j { progress = some (given f.progress ""); status = waiting }

  saved-Stranded :
      find job_key j.id w.jobs ≡ some j
      → j.parent ≡ none
      → all_settled j.id w.jobs ≡ true
      → Stranded j.id ((save_job yielding >> on_job_changed env fuel yielding) w)
  unfolding save_job on_job_changed changed_with
  saved-Stranded there root settled =
      let w1 : Farm = record w { jobs = save job_key yielding w.jobs } in
      let left : Farm = record w1 { notices = sent_after env yielding w1.notices } in
      let told : on_job_changed env fuel yielding w1 ≡ (ok tt, left) =
        >>=-ok (job_notification env yielding)
          (λ _. with_parent (update_parent_job env fuel) j.parent) w1
          (job_notification-notices env yielding w1)
        ∙ ap (λ o. with_parent (update_parent_job env fuel) o left) root in
      subst (Stranded j.id) (sym told) (
        refl,
        status_of-save_job j.id yielding w ∙ rw (==_refl j.id) refl,
        all_settled-save_root j.id yielding j w.jobs there root root ∙ settled,
      )

-- A job of no parent launches its children itself, before it reports that it waits for them. Where
-- they have all ended by then, the report leaves the job waiting, with all its children ended: its
-- status is decided where a child changes alone, and no child is left to change.
pub finish_job-Stranded :
    (env : Env) (fuel : ℕ) (f : FinishedJob) (j : Job) (w : Farm)
    → find job_key f.job_id w.jobs ≡ some j
    → j.parent ≡ none
    → all_settled f.job_id w.jobs ≡ true
    → Stranded f.job_id (finish_job env fuel (record f { children = some [] }) w)
unfolding finish_job outcome for_each
finish_job-Stranded env fuel f j w there root settled =
    let key : j.id ≡ f.job_id = (find-In job_key f.job_id j w.jobs there).1 in
    let rest = λ (i : Job).
      outcome env (record f { children = some [] })
        (record i { progress = some (given f.progress "") })
      >>= λ (done : Job). save_job done >> on_job_changed env fuel done in
    subst (λ p. Stranded f.job_id (except_missing (λ _. p) w))
      (sym (>>=-ok (get_job f.job_id) rest w (get_job-found f.job_id j w there)))
      (forgiven-Stranded f.job_id
        (save_job (yielding env fuel f j w) >> on_job_changed env fuel (yielding env fuel f j w)) w
        (subst
          (λ i. Stranded i (
            (save_job (yielding env fuel f j w)
                >> on_job_changed env fuel (yielding env fuel f j w))
              w))
          key
          (saved-Stranded env fuel f j w (find_self job_key f.job_id j w.jobs there) root
            (subst (λ i. all_settled i w.jobs ≡ true) (sym key) settled))))
