-- ===== src/Tests/RequestRuns.antt =====
-- Requests about the jobs of a small farm.
use ava_capture.Base.{
  ◌⊎◌, select, ℕ, refl, true, false, none, some, List, [], ◌∷◌, ◌++◌, inl, inr, In, count_where,
}
use ava_capture.Base.Table.{find}
use ava_capture.Farm.{Farm, User, running, waiting, failed, has_write_access}
use ava_capture.Requests.{JobRequest, restart_job, restart_job_failed_child, kill_job}
use ava_capture.Requests.Children.{ChildrenRestarted, restart_job_failed_child-ChildrenRestarted}
use ava_capture.Requests.Allowed.{IsOwner, IsStranger, AllRefused, NoneRefused, requests_by_rights}
use ava_capture.Requests.Effect.{Killed, kill_job-Killed}
use ava_capture.Requests.Restart.{DeletesGiven, Restarted, restart_job-Restarted}
use ava_capture.Tests.Samples.{env, job, farm, ann, descend}

abbrev about : ℕ → JobRequest
about k = record { job_id = some k; clone_job = none; use_same_machine = some true }

abbrev bob : User
bob = record { username = "bob"; is_superuser = false }

abbrev pair : Farm
pair = farm (job 1 none waiting ∷ job 2 (some 1) running ∷ [])

requests_by_rights_example :
    IsOwner (job 2 (some 1) running) bob × NoneRefused env bob (about 2) pair
    ⊎ IsStranger (job 2 (some 1) running) bob × AllRefused env bob (about 2) pair
unfolding find
requests_by_rights_example =
    requests_by_rights env bob (about 2) pair 2 refl (job 2 (some 1) running) refl

kill_job-Killed_example : Killed 2 running pair.jobs (kill_job ann (about 2) pair)
unfolding find has_write_access
kill_job-Killed_example =
    kill_job-Killed ann (about 2) pair 2 (job 2 (some 1) running) (refl, (refl, tt)) refl refl refl

In-append : (k : ℕ) (xs ys : List ℕ) → In k xs → In k (xs ++ ys)
In-append k [] ys m = elim m [ ]
In-append k (x ∷ xs) ys m = elim m [ inl e ↦ inl e | inr later ↦ inr (In-append k xs ys later) ]

-- The sample farm deletes as Django does.
env-DeletesGiven : DeletesGiven env
unfolding descend
env-DeletesGiven jobs keys k m = In-append k keys _ m

abbrev settled_pair : Farm
settled_pair = farm (job 1 none failed ∷ job 2 (some 1) failed ∷ [])

restart_job-Restarted_example : Restarted 1 (restart_job env ann (about 1) settled_pair)
unfolding find has_write_access count_where
restart_job-Restarted_example =
    restart_job-Restarted env ann (about 1) settled_pair 1 (job 1 none failed) env-DeletesGiven refl
      refl refl refl refl

restart_job_failed_child-ChildrenRestarted_example :
    ChildrenRestarted 1 (restart_job_failed_child ann (about 1) settled_pair)
unfolding find has_write_access select
restart_job_failed_child-ChildrenRestarted_example =
    restart_job_failed_child-ChildrenRestarted ann (about 1) settled_pair 1 (job 1 none failed) refl
      refl refl refl
