-- ===== src/Parent/Settling.antt =====
-- What `onJobChanged` does to the stored jobs: the parent settles by its children's statuses, and
-- no other job changes its status.
use ava_capture.Base.{
  All-In, ⊤, ℕ, suc, ◌≡◌, ◌==◌, refl, ◌∙◌, sym, ap, subst, ==→eq, if◌then◌else◌, Bool, true, false,
  not, Option, none, some, List, arith, inl, inr, Bool-cases,
}
use ava_capture.Base.Table.{find, find-In, find_self}
use ava_capture.Farm.{
  Env, Farm, Job, Status, waiting, is, job_key, Result, ok, when, >>=-ok, ◌>>◌, get_job,
  get_job-found, save_job, save_job-ok,
}
use ava_capture.Parent.{
  show_counts, settle, all_settled, final_status, with_parent, changed_with, refresh,
  on_job_changed,
}
use ava_capture.Parent.Depth.{
  show_progress, settle_once, sent_after, changed_with-notices, on_job_changed_depth,
}
use ava_capture.Parent.Verdict.{
  verdict, child_statuses, next_status, IsStored, ParentsStored, verdict_counts, status_of,
  status_of-save_job, status_of-found, status_of-save_same,
}

-- An action that began at `jobs` has returned, and each status is as it was.
abbrev KeepsStatus : List Job → Result ⊤ × Farm → Type 0
KeepsStatus jobs (r, w') = (r ≡ ok tt) × ((k : ℕ) → status_of k w'.jobs ≡ status_of k jobs)

show_progress-KeepsStatus :
    (q : Job) (w : Farm)
    → find job_key q.id w.jobs ≡ some q
    → KeepsStatus w.jobs (show_progress q w)
show_progress-KeepsStatus q w there = go (is waiting q.status)
  where
    go : (b : Bool) → KeepsStatus w.jobs (when b (save_job (show_counts q w.jobs)) w)
    go true = (
      save_job-ok (show_counts q w.jobs) w,
      λ k. status_of-save_same k q (show_counts q w.jobs) w there refl,
    )
    go false = (refl, λ k. refl)

-- An action that began at `jobs` has returned, the job `k` has status `s`, and no other status has
-- changed.
abbrev pub Settles : ℕ → Status → List Job → Result ⊤ × Farm → Type 0
Settles p s jobs (r, w') =
    (r ≡ ok tt) × ((k : ℕ) → status_of k w'.jobs ≡ (if p == k then some s else status_of k jobs))

keeps-Settles :
    (q : Job) (s : Status) (jobs : List Job) (o : Result ⊤ × Farm)
    → find job_key q.id jobs ≡ some q
    → q.status ≡ s
    → KeepsStatus jobs o
    → Settles q.id s jobs o
keeps-Settles q s jobs o there same (returns, keeps) =
    (returns, λ k. keeps k ∙ own k (q.id == k) refl)
  where
    own :
        (k : ℕ) (b : Bool)
        → (q.id == k) ≡ b
        → status_of k jobs ≡ (if b then some s else status_of k jobs)
    own k false e = refl
    own k true e =
        subst (λ i. status_of i jobs ≡ some s) (==→eq q.id k e)
          (status_of-found q.id q jobs there ∙ ap some same)

-- A waiting job that settles does change its status.
final_differs :
    (k : ℕ) (s : Status) (jobs : List Job) → s ≡ waiting → not (is (final_status k jobs) s) ≡ true
unfolding final_status
final_differs k s jobs waits = ground arith

module _ (env : Env) (w : Farm) (stored : ParentsStored w.jobs) where
  -- A job whose copy in memory names the parent of its row changes no status by `onJobChanged`
  -- where only progress texts are written.
  changed-KeepsStatus :
      (q old : Job)
      → find job_key q.id w.jobs ≡ some old
      → q.parent ≡ old.parent
      → KeepsStatus w.jobs (changed_with env show_progress q w)
  changed-KeepsStatus q old there same =
      subst (KeepsStatus w.jobs) (sym (changed_with-notices env show_progress q w))
        (go q.parent refl)
    where
      after : Farm
      after = record w { notices = sent_after env q w.notices }

      go : (p : Option ℕ) → q.parent ≡ p → KeepsStatus w.jobs (with_parent show_progress p after)
      go none e = (refl, λ k. refl)
      go (some p) e =
          let own =
            All-In (λ j. IsStored w.jobs j.parent) w.jobs old stored
              (find-In job_key q.id old w.jobs there).0 in
          let (r, row) = subst (IsStored w.jobs) (sym same ∙ e) own in
          subst (KeepsStatus w.jobs)
            (sym (>>=-ok (get_job p) show_progress after (get_job-found p r after row)))
            (show_progress-KeepsStatus r after (find_self job_key p r w.jobs row))

  -- The branch of `UpdateParentJob` in which the job settles.
  settle-Settles :
      (q : Job)
      → find job_key q.id w.jobs ≡ some q
      → Settles q.id (final_status q.id w.jobs) w.jobs (
          (changed_with env show_progress (settle env q w.jobs) >> save_job (settle env q w.jobs))
            w)
  settle-Settles q there = subst (Settles q.id (final_status q.id w.jobs) w.jobs) (sym reached) (
    save_job-ok q' after,
    λ k.
        status_of-save_job k q' after
        ∙ ap (λ s. if q.id == k then some (final_status q.id w.jobs) else s) (keeps.1 k),
  )
    where
      q' : Job
      q' = settle env q w.jobs

      after : Farm
      after = (changed_with env show_progress q' w).1

      keeps : KeepsStatus w.jobs (changed_with env show_progress q' w)
      keeps = changed-KeepsStatus q' q there refl

      reached : (changed_with env show_progress q' >> save_job q') w ≡ save_job q' after
      reached =
          >>=-ok (changed_with env show_progress q') (λ _. save_job q') w (λ i. (keeps.0 i, after))

  refresh-Settles :
      (q : Job)
      → find job_key q.id w.jobs ≡ some q
      → q.status ≡ waiting
      → Settles q.id
          (if all_settled q.id w.jobs then final_status q.id w.jobs else waiting)
          w.jobs
          (refresh env show_progress q w)
  unfolding refresh
  refresh-Settles q there waits = elim (Bool-cases (all_settled q.id w.jobs)) [
    | inr not_yet ↦ rw not_yet (
        keeps-Settles q waiting w.jobs (save_job (show_counts q w.jobs) w) there waits (
          save_job-ok (show_counts q w.jobs) w,
          λ k. status_of-save_same k q (show_counts q w.jobs) w there refl,
        ))
    | inl all_done ↦
        rw (all_done, final_differs q.id q.status w.jobs waits) (settle-Settles q there)
  ]

  -- `UpdateParentJob` gives a stored job the verdict on its children, if it is waiting, and changes
  -- no other status.
  settle_once-Settles :
      (q : Job)
      → find job_key q.id w.jobs ≡ some q
      → Settles q.id (next_status q w.jobs) w.jobs (settle_once env q w)
  unfolding settle_once next_status
  settle_once-Settles q there = go (is waiting q.status) refl
    where
      go :
          (b : Bool)
          → is waiting q.status ≡ b
          → Settles q.id
              (if b then verdict (child_statuses q.id w.jobs) else q.status)
              w.jobs
              (when b (refresh env show_progress q) w)
      go false e = keeps-Settles q q.status w.jobs (ok tt, w) there refl (refl, λ k. refl)
      go true e = rw (verdict_counts q.id w.jobs) (refresh-Settles q there (ground arith))

-- `onJobChanged` returns, the parent of the job gets the verdict on its children, and no other
-- job, a grandparent included, changes its status.
pub on_job_changed-Settles :
    (env : Env) (w : Farm) (fuel p : ℕ) (j q : Job)
    → ParentsStored w.jobs
    → j.parent ≡ some p
    → find job_key p w.jobs ≡ some q
    → Settles p (next_status q w.jobs) w.jobs (on_job_changed env (suc (suc fuel)) j w)
on_job_changed-Settles env w fuel p j q stored is_parent there =
    subst (λ i. Settles i (next_status q w.jobs) w.jobs (on_job_changed env (suc (suc fuel)) j w))
      (find-In job_key p q w.jobs there).1
      (subst (Settles q.id (next_status q w.jobs) w.jobs) (sym steps)
        (settle_once-Settles env after stored q (find_self job_key p q w.jobs there)))
  where
    after : Farm
    after = record w { notices = sent_after env j w.notices }

    steps : on_job_changed env (suc (suc fuel)) j w ≡ settle_once env q after
    steps =
        on_job_changed_depth env fuel j w
        ∙ changed_with-notices env (settle_once env) j w
        ∙ ap (λ o. with_parent (settle_once env) o after) is_parent
        ∙ >>=-ok (get_job p) (settle_once env) after (get_job-found p q after there)
