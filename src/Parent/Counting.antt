-- ===== src/Parent/Counting.antt =====
-- The counts of `UpdateParentJob` over the children of a job.
use ava_capture.Base.{
  ℕ, ◌+◌, ◌≤◌, ◌≡◌, true, false, ◌&&◌, List, [], ◌∷◌, arith, In, count_where, count_where_pos,
}
use ava_capture.Farm.{Job, success, failed, waiting, is}
use ava_capture.Parent.{is_child, child_count, all_count, all_settled}

-- A child has one status: the counts of different ones add up to no more than all.
pub child_counts-le_all :
    (k : ℕ) (jobs : List Job)
    → child_count success k jobs + child_count failed k jobs + child_count waiting k jobs
      ≤ all_count k jobs
unfolding count_where
child_counts-le_all k [] = omega arith
child_counts-le_all k (j ∷ jobs) = ground (arith, child_counts-le_all k jobs)

-- One waiting child keeps its parent from settling.
pub waiting_child_blocks :
    (k : ℕ) (c : Job) (jobs : List Job)
    → In c jobs
    → is_child k c ≡ true
    → c.status ≡ waiting
    → all_settled k jobs ≡ false
unfolding all_settled
waiting_child_blocks k c jobs m child status = ground (
  arith,
  child_counts-le_all k jobs,
  count_where_pos (λ d. is_child k d && is waiting d.status) jobs c m (ground arith),
)
