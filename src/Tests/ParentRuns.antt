-- ===== src/Tests/ParentRuns.antt =====
-- `onJobChanged` on a chain of three jobs.
use ava_capture.Base.{◌≡◌, refl, none, some, [], ◌∷◌, count_where}
use ava_capture.Base.Table.{find, save}
use ava_capture.Farm.{Farm, Job, success, waiting, get_job, save_job}
use ava_capture.Parent.{
  all_settled, final_status, job_notification, changed_with, refresh, update_parent_job,
  on_job_changed,
}
use ava_capture.Parent.Depth.{settle_once, on_job_changed_depth}
use ava_capture.Parent.Verdict.{status_of, next_status}
use ava_capture.Parent.Settling.{Settles, on_job_changed-Settles}
use ava_capture.Tests.Samples.{env, job, farm}

abbrev leaf : Job
leaf = job 3 (some 2) success

abbrev middle : Job
middle = job 2 (some 1) waiting

abbrev chain : Farm
chain = farm (job 1 none waiting ∷ middle ∷ leaf ∷ [])

on_job_changed_depth_example :
    on_job_changed env 5 leaf chain ≡ changed_with env (settle_once env) leaf chain
on_job_changed_depth_example = on_job_changed_depth env 3 leaf chain

on_job_changed-Settles_example :
    Settles 2 (next_status middle chain.jobs) chain.jobs (on_job_changed env 2 leaf chain)
unfolding find
on_job_changed-Settles_example =
    on_job_changed-Settles env chain 0 2 leaf middle
      (tt, ((job 1 none waiting, refl), ((middle, refl), tt))) refl refl

-- The middle job has succeeded, and the job above it waits on.
chain_stays_waiting :
    (status_of 2 (on_job_changed env 2 leaf chain).1.jobs ≡ some success)
    × (status_of 1 (on_job_changed env 2 leaf chain).1.jobs ≡ some waiting)
unfolding on_job_changed changed_with update_parent_job refresh job_notification all_settled
    final_status get_job save_job find save count_where status_of
chain_stays_waiting = (refl, refl)
