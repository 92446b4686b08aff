-- ===== src/Parent/Sound.antt =====
-- Tables of jobs with unique keys and stored parents, which saving a job keeps.
use ava_capture.Base.{
  All-map, All, ℕ, ◌==◌, Bool, true, false, Option, none, some, List, [], ◌∷◌, arith, inl, inr,
  Bool-cases,
}
use ava_capture.Base.Table.{save, find-save, IsUnique, save-IsUnique}
use ava_capture.Farm.{Job, Status, running, terminating, job_key}
use ava_capture.Parent.Verdict.{IsStored, ParentsStored}

-- Running, or about to be killed: the client still has the job.
abbrev pub is_live : Status → Bool
is_live running = true
is_live terminating = true
is_live _ = false

-- The keys of the jobs differ, and each parent has a row.
pub record IsSound (jobs : List Job) : Type 0 where
  pub unique : IsUnique job_key jobs
  pub parents : ParentsStored jobs

-- A foreign key stays satisfied when a job is saved.
pub IsStored-save :
    (j : Job) (p : Option ℕ) (jobs : List Job) → IsStored jobs p → IsStored (save job_key j jobs) p
IsStored-save j none jobs h = tt
IsStored-save j (some p) jobs (q, there) = elim (Bool-cases (j.id == p)) [
  | inl same ↦ (j, ground (arith, find-save job_key p j jobs))
  | inr other ↦ (q, ground (arith, find-save job_key p j jobs))
]

All-save :
    (P : Job → Type 0) (j : Job) (jobs : List Job) → All P jobs → P j → All P (save job_key j jobs)
unfolding save
All-save P j [] h own = (own, tt)
All-save P j (x ∷ xs) h own = elim (Bool-cases (x.id == j.id)) [
  | inl hit ↦ rw hit (own, h.1)
  | inr miss ↦ rw miss (h.0, All-save P j xs h.1 own)
]

pub save-IsSound :
    (j : Job) (jobs : List Job)
    → IsSound jobs
    → IsStored jobs j.parent
    → IsSound (save job_key j jobs)
save-IsSound j jobs sound own = record {
  unique = save-IsUnique job_key j jobs sound.unique;
  parents =
      All-save (λ i. IsStored (save job_key j jobs) i.parent) j jobs
        (All-map (λ i. IsStored jobs i.parent) (λ i. IsStored (save job_key j jobs) i.parent) jobs
          (λ i. IsStored-save j i.parent jobs) sound.parents)
        (IsStored-save j j.parent jobs own);
}
