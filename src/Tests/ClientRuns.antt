-- ===== src/Tests/ClientRuns.antt =====
-- A job client that takes two jobs on and finishes one.
use ava_capture.Base.{
  ℕ, String, ◌≡◌, refl, true, false, ◌⊎◌, inl, inr, none, [], ◌∷◌, In, any_of, Option,
}
use ava_capture.Base.Table.{save}
use ava_capture.Discover.Report.{JobData}
use ava_capture.Client.{
  JobInstance, Container, raised, job_process, new_instance, completed_by, submit_job, publish,
  holds,
}
use ava_capture.Client.Reported.{deserved, Earns, completed_by-Earns}
use ava_capture.Client.Steps.{empty_container, publishes, done, step, Run, start, submit}
use ava_capture.Client.Held.{report_covers}

abbrev task : ℕ → JobData
task k = record { job_id = k; job_class = "jobs.test.DummyJob"; params = none }

abbrev loads : String → Option String
loads job_class = none

abbrev fresh : ℕ → ℕ × JobInstance
unfolding new_instance
fresh k = (k, new_instance none (task k))

abbrev two_running : Container
unfolding new_instance
two_running = record { running_jobs = fresh 1 ∷ fresh 2 ∷ []; finished_jobs = []; published = [] }

abbrev one_done : Container
unfolding publish new_instance save
one_done = publish 1 (new_instance none (task 1)) two_running

two_running-Run : Run (2 ∷ 1 ∷ []) [] two_running
unfolding submit_job any_of two_running
two_running-Run =
    submit (1 ∷ []) [] _ two_running loads (task 2)
      (submit [] [] empty_container _ loads (task 1) start refl) refl

report_covers_example :
    (holds two_running.running_jobs 1 ≡ true)
    ⊎ (holds one_done.finished_jobs 1 ≡ true)
    ⊎ In {A = ℕ} 1 []
unfolding publish one_done
report_covers_example =
    report_covers (2 ∷ 1 ∷ []) [] two_running one_done 1 two_running-Run
      (step two_running one_done one_done (publishes 1 (new_instance none (task 1)) two_running)
        (done one_done))
      (inr (inl refl))

completed_by-Earns_example : Earns 4 (deserved none false (raised "KeyError")) (
    let j = new_instance none (task 4) in
    (completed_by
      ("50%" ∷ [])
      (job_process 4 (raised "KeyError") ∷ [])
      (record j { terminated = false })).result)
completed_by-Earns_example = completed_by-Earns none false ("50%" ∷ []) (raised "KeyError") (task 4)
