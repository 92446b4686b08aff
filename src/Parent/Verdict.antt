-- ===== src/Parent/Verdict.antt =====
-- The statuses of jobs, the verdict on the children of a job, and that the counts of
-- `UpdateParentJob` decide as it does.
use mathlib.Core.Option
use ava_capture.Base.{
  All, ⊤, ℕ, ◌+◌, ◌≡◌, ◌==◌, ltb, refl, ◌∙◌, sym, ap, subst, ==→eq, if◌then◌else◌, Bool, true,
  false, ◌&&◌, ◌||◌, Option, none, some, List, [], ◌∷◌, arith, inl, inr, Bool-cases, count_where,
  length,
}
use ava_capture.Base.Table.{find}
use ava_capture.Farm.{
  Farm, Job, Status, success, failed, waiting, is, job_key, save_job, find-save_job,
}
use ava_capture.Parent.{is_child, child_count, all_count, all_settled, final_status}
use ava_capture.Parent.Counting.{child_counts-le_all}

abbrev pub is_finished : Status → Bool
is_finished success = true
is_finished failed = true
is_finished _ = false

abbrev pub all_finished : List Status → Bool
all_finished [] = true
all_finished (s ∷ ss) = is_finished s && all_finished ss

abbrev pub some_failed : List Status → Bool
some_failed [] = false
some_failed (s ∷ ss) = is failed s || some_failed ss

-- The status of a waiting job with children of the given statuses: it waits as long as it has no
-- child or one that is not finished; then it is failed if a child is, and a success otherwise.
pub verdict : List Status → Status
verdict [] = waiting
verdict (s ∷ ss) =
    if all_finished (s ∷ ss) then (if some_failed (s ∷ ss) then failed else success) else waiting

unfoldable pub child_statuses : ℕ → List Job → List Status
child_statuses k [] = []
child_statuses k (j ∷ jobs) =
    if is_child k j then j.status ∷ child_statuses k jobs else child_statuses k jobs

-- The status of a job once `UpdateParentJob` has looked at it: only a waiting job is judged.
unfoldable pub next_status : Job → List Job → Status
next_status q jobs = if is waiting q.status then verdict (child_statuses q.id jobs) else q.status

-- A foreign key to a job holds nothing, or the key of a row.
abbrev pub IsStored : List Job → Option ℕ → Type 0
IsStored jobs none = ⊤
IsStored jobs (some p) = (q : Job) × (find job_key p jobs ≡ some q)

-- Each job's parent has a row: the foreign key of the table.
abbrev pub ParentsStored : List Job → Type 0
ParentsStored jobs = All (λ j. IsStored jobs j.parent) jobs

module _ (k : ℕ) where
  counts-finished :
      (jobs : List Job)
      → (child_count success k jobs + child_count failed k jobs == all_count k jobs)
        ≡ all_finished (child_statuses k jobs)
  unfolding child_statuses count_where
  counts-finished [] = refl
  counts-finished (j ∷ jobs) = ground (arith, counts-finished jobs, child_counts-le_all k jobs)

  count_failed :
      (jobs : List Job) → ltb 0 (child_count failed k jobs) ≡ some_failed (child_statuses k jobs)
  unfolding child_statuses count_where
  count_failed [] = refl
  count_failed (j ∷ jobs) = ground (arith, count_failed jobs)

  all_count-length : (jobs : List Job) → all_count k jobs ≡ length (child_statuses k jobs)
  unfolding child_statuses count_where
  all_count-length [] = refl
  all_count-length (j ∷ jobs) = ground (arith, all_count-length jobs)

  verdict_lem :
      (ss : List Status)
      → verdict ss ≡ (
          if ltb 0 (length ss) && all_finished ss
          then (if some_failed ss then failed else success)
          else waiting)
  unfolding verdict
  verdict_lem [] = refl
  verdict_lem (s ∷ ss) = ground arith

  -- The counts of `UpdateParentJob` decide as the verdict on the children's statuses does.
  pub verdict_counts :
      (jobs : List Job)
      → verdict (child_statuses k jobs)
        ≡ (if all_settled k jobs then final_status k jobs else waiting)
  unfolding all_settled final_status verdict
  verdict_counts jobs =
      rw (counts-finished jobs, count_failed jobs, all_count-length jobs)
        (verdict_lem (child_statuses k jobs))

-- The status that is stored under a key.
unfoldable pub status_of : ℕ → List Job → Option Status
status_of k jobs = Option.map (λ j. j.status) (find job_key k jobs)

pub status_of-save_job :
    (k : ℕ) (j : Job) (w : Farm)
    → status_of k (save_job j w).1.jobs ≡ (if j.id == k then some j.status else status_of k w.jobs)
unfolding status_of
status_of-save_job k j w = rw (find-save_job k j w) (go (j.id == k))
  where
    go :
        (b : Bool)
        → Option.map (λ (i : Job). i.status) (if b then some j else find job_key k w.jobs)
          ≡ (if b then some j.status else Option.map (λ i. i.status) (find job_key k w.jobs))
    go true = refl
    go false = refl

pub status_of-found :
    (k : ℕ) (j : Job) (jobs : List Job)
    → find job_key k jobs ≡ some j
    → status_of k jobs ≡ some j.status
unfolding status_of
status_of-found k j jobs there = ap (Option.map (λ (i : Job). i.status)) there

-- A stored job that is saved with its old status leaves all statuses alone.
pub status_of-save_same :
    (k : ℕ) (old j : Job) (w : Farm)
    → find job_key j.id w.jobs ≡ some old
    → j.status ≡ old.status
    → status_of k (save_job j w).1.jobs ≡ status_of k w.jobs
status_of-save_same k old j w there same = elim (Bool-cases (j.id == k)) [
  | inr other ↦ rw (status_of-save_job k j w, other) refl
  | inl here ↦
      rw (status_of-save_job k j w, here)
        (subst (λ i. some j.status ≡ status_of i w.jobs) (==→eq j.id k here)
          (ap some same ∙ sym (status_of-found j.id old w.jobs there)))
]
