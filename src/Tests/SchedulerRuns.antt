-- ===== src/Tests/SchedulerRuns.antt =====
-- The scheduler on a farm with jobs of two priorities.
use ava_capture.Base.{
  ◌≡◌, refl, none, some, [], ◌∷◌, In, inl, inr, count_where, select, any_of, arith,
}
use ava_capture.Base.Int.{pos, ◌≤ℤ◌}
use ava_capture.Farm.{Farm, Job, ready}
use ava_capture.Scheduler.{
  Offer, pick, filter_q, nb_running, can_run, or_list, is_excluded, is_candidate, order_by_priority,
  unmet_dependencies, first_ready,
}
use ava_capture.Scheduler.Runnable.{Runnable, pick-Runnable, pick_of_Runnable}
use ava_capture.Tests.Samples.{job, machine, farm}

abbrev offer : Offer
offer = record { node = machine; available = "jobs.archive.ExportTake" ∷ []; excluded = [] }

abbrev low : Job
low = job 1 none ready

abbrev high : Job
high = record (job 2 none ready) { priority = pos 70 }

abbrev two_jobs : Farm
two_jobs = farm (low ∷ high ∷ [])

pick-high : pick offer (pos 0) two_jobs ≡ some high
unfolding pick or_list can_run nb_running filter_q is_candidate is_excluded order_by_priority
    unmet_dependencies first_ready count_where select any_of
pick-high = refl

pick-Runnable_example :
    In high two_jobs.jobs
    × Runnable offer (pos 0) two_jobs high
    × ((a : Job)
        → In a two_jobs.jobs
        → Runnable offer (pos 0) two_jobs a
        → a.priority ≤ℤ high.priority)
pick-Runnable_example = pick-Runnable offer (pos 0) two_jobs high pick-high

low-Runnable : Runnable offer (pos 0) two_jobs low
low-Runnable = record {
  is_ready = refl;
  version = omega arith;
  place = inr (refl, refl);
  class = inl refl;
  tags = λ t m _. elim m [ ];
  gpu = λ _. refl;
  channel = λ r m runs here same. ground arith;
  dependencies = λ d m e. elim e [ ];
}

pick_of_Runnable_example : (j : Job) × (pick offer (pos 0) two_jobs ≡ some j)
pick_of_Runnable_example = pick_of_Runnable offer (pos 0) two_jobs low (inl refl) low-Runnable
