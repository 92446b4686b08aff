-- ===== src/Requests/Effect.antt =====
-- What the requests about jobs leave in the database.
use mathlib.Core.Option
use ava_capture.Base.{
  ℕ, ◌≡◌, ◌==◌, ltb, refl, ◌∙◌, sym, ap, subst, if◌then◌else◌, Bool, true, false, ◌&&◌, inl, inr,
  some, List, arith, Option-cases, ==_refl, count_where, count_where_pos, count_where_none, ==→eq,
  and_split,
}
use ava_capture.Base.Table.{find, find-In, find_self, find-update_where, In-find, IsUnique}
use ava_capture.Farm.{
  Farm, Job, Status, User, running, terminating, is, job_key, Result, ok, update_jobs,
  has_write_access,
}
use ava_capture.Parent.Verdict.{status_of}
use ava_capture.Requests.{JobRequest, is_killable, kill, kill_job}
use ava_capture.Requests.Rights.{authorized-granted}

-- The only test of `kill_job` that counts is on the row itself.
killable-count :
    (k : ℕ) (j : Job) (jobs : List Job)
    → IsUnique job_key jobs
    → find job_key k jobs ≡ some j
    → ltb 0 (count_where (is_killable k) jobs) ≡ is running j.status
killable-count k j jobs unique there = go (is running j.status) refl
  where
    go : (b : Bool) → is running j.status ≡ b → ltb 0 (count_where (is_killable k) jobs) ≡ b
    go true runs =
        let (m, key) = find-In job_key k j jobs there in
        let some_killed = count_where_pos (is_killable k) jobs j m (ground arith) in ground arith
    go false idle =
        let none_killed = count_where_none (is_killable k) jobs (λ a m hit.
          let (same, runs) = and_split (a.id == k) (is running a.status) hit in
          let at_key = In-find job_key a jobs unique m in
          let twin : some a ≡ some j =
            sym at_key ∙ ap (λ i. find job_key i jobs) (==→eq a.id k same) ∙ there in
          absurd (cc)) in
        ground arith

-- The outcome of a kill request for the job `k` with status `s`.
abbrev pub Killed : ℕ → Status → List Job → Result ℕ × Farm → Type 0
Killed k s jobs (r, w') =
    (r ≡ ok (if is running s then 200 else 404))
    × ((i : ℕ)
        → status_of i w'.jobs
          ≡ (if k == i && is running s then some terminating else status_of i jobs))

kill-Killed :
    (w : Farm) (k : ℕ) (j : Job)
    → IsUnique job_key w.jobs
    → find job_key k w.jobs ≡ some j
    → Killed j.id j.status w.jobs (kill j w)
unfolding kill update_jobs status_of
kill-Killed w k j unique there = (
  ap (λ b. ok (if b then 200 else 404)) (killable-count j.id j w.jobs unique own),
  λ i.
      ap (Option.map (λ (a : Job). a.status))
        (find-update_where job_key (is_killable j.id) mark i w.jobs (λ a. refl))
      ∙ row i (j.id == i) refl,
)
  where
    mark : Job → Job
    mark a = record a { status = terminating }

    own : find job_key j.id w.jobs ≡ some j
    own = find_self job_key k j w.jobs there

    marked :
        (a : Job) (t : Bool)
        → some (if t then mark a else a).status ≡ (if t then some terminating else some a.status)
    marked a true = refl
    marked a false = refl

    -- What the update makes of the statuses, row by row.
    Row : ℕ → Bool → Type 0
    Row i b =
        Option.map (λ (a : Job). a.status)
          (Option.map (λ a. if is_killable j.id a then mark a else a) (find job_key i w.jobs))
        ≡ (if b && is running j.status
            then some terminating
            else Option.map (λ a. a.status) (find job_key i w.jobs))

    row : (i : ℕ) (b : Bool) → (j.id == i) ≡ b → Row i b
    row i true e =
        subst (λ m. Row m true) (==→eq j.id i e)
          (rw (own, ==_refl j.id) (marked j (is running j.status)))
    row i false e = elim (Option-cases (find job_key i w.jobs)) [
      | inl nothing ↦ rw nothing refl
      | inr (a, found) ↦
          let (_, key) = find-In job_key i a w.jobs found in
          let other : (a.id == j.id) ≡ false = ground arith in rw (found, other) refl
    ]

-- A user who may write the job kills it exactly where it is running: it becomes terminating, the
-- answer is 200, and no other job changes its status; a job that is not running gives 404, and no
-- status changes.
pub kill_job-Killed :
    (user : User) (req : JobRequest) (w : Farm) (k : ℕ) (j : Job)
    → IsUnique job_key w.jobs
    → req.job_id ≡ some k
    → find job_key k w.jobs ≡ some j
    → has_write_access j user ≡ true
    → Killed k j.status w.jobs (kill_job user req w)
unfolding kill_job
kill_job-Killed user req w k j unique named there granted =
    rw (named, authorized-granted user k j kill w there granted)
      (subst (λ i. Killed i j.status w.jobs (kill j w)) (find-In job_key k j w.jobs there).1
        (kill-Killed w k j unique there))
