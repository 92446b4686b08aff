-- ===== src/Tests/DiscoverRuns.antt =====
-- A client's report on a small farm.
use ava_capture.Base.{
  ◌≡◌, refl, true, false, none, some, [], ◌∷◌, In, arith, ℕ, String, ◌↔◌, count_where,
}
use ava_capture.Base.Table.{find}
use ava_capture.Farm.{Farm, Job, ready, running, success, waiting, ok, terminating}
use ava_capture.Parent.{is_dead, cleanup_dead_jobs, all_settled}
use ava_capture.Parent.Verdict.{next_status, status_of}
use ava_capture.Parent.Settling.{Settles}
use ava_capture.Parent.Sound.{IsSound}
use ava_capture.Discover.{is_lost, fail_lost_jobs, finish_job, mark_running}
use ava_capture.Scheduler.{excluded_tags, is_excluded}
use ava_capture.Discover.Marked.{mark_running-terminating, is_excluded-excluded_tags}
use ava_capture.Discover.Report.{FinishedJob}
use ava_capture.Discover.Lost.{fail_lost_jobs_agree, cleanup_dead_jobs_clears}
use ava_capture.Discover.Finished.{with_status, finish_job-Settles}
use ava_capture.Discover.Stranded.{Stranded, finish_job-Stranded}
use ava_capture.Tests.Samples.{env, job, farm}

abbrev parent : Job
parent = job 1 none waiting

abbrev lost : Job
lost = record (job 2 (some 1) running) { node = some 1 }

abbrev busy : Farm
busy = farm (parent ∷ lost ∷ [])

busy-IsSound : IsSound busy.jobs
unfolding find
busy-IsSound = record { unique = (refl, (refl, tt)); parents = (tt, ((parent, refl), tt)) }

fail_lost_jobs_agree_example :
    let (r, w') = fail_lost_jobs env 2 1 (some []) busy in
    (r ≡ ok tt) × IsSound w'.jobs × ((j : Job) → In j w'.jobs → is_lost 1 [] j ≡ false)
fail_lost_jobs_agree_example = fail_lost_jobs_agree env 0 1 [] busy busy-IsSound

cleanup_dead_jobs_clears_example :
    let (r, w') = cleanup_dead_jobs env 2 busy in
    (r ≡ ok tt) × IsSound w'.jobs × ((j : Job) → In j w'.jobs → is_dead env busy.nodes j ≡ false)
cleanup_dead_jobs_clears_example = cleanup_dead_jobs_clears env 0 busy busy-IsSound

abbrev report : FinishedJob
report = record {
  job_id = 2;
  success = some true;
  exception = none;
  progress = none;
  children = none;
}

finish_job-Settles_example :
    Settles 1
      (next_status parent (with_status success lost busy.jobs))
      (with_status success lost busy.jobs)
      (finish_job env 2 report busy)
unfolding find
finish_job-Settles_example =
    finish_job-Settles env 0 report success lost parent 1 busy busy-IsSound refl tt refl refl refl
      (λ e. omega arith)

abbrev dying : Farm
dying = farm (job 3 none terminating ∷ [])

mark_running-terminating_example :
    status_of 3 (mark_running (some ((3, "50%") ∷ [])) none dying).1.jobs ≡ some terminating
unfolding status_of find
mark_running-terminating_example =
    mark_running-terminating (some ((3, "50%") ∷ [])) none 3 dying refl

is_excluded-excluded_tags_example :
    (is_excluded
        ((3, "gpu") ∷ [])
        (excluded_tags ((2, "gpu") ∷ []) ("py36" ∷ []))
        (job 3 none ready)
      ≡ true)
    ↔ (t : String) × In {A = ℕ × String} (3, t) ((3, "gpu") ∷ [])
      × ((n : ℕ) × In {A = ℕ × String} (n, t) ((2, "gpu") ∷ []))
      × (In {A = String} t ("py36" ∷ []) → ⊥)
is_excluded-excluded_tags_example =
    is_excluded-excluded_tags ((2, "gpu") ∷ []) ((3, "gpu") ∷ []) ("py36" ∷ []) (job 3 none ready)

-- Its one child has ended, and the job itself has not reported yet.
abbrev hurried : Farm
hurried = farm (job 1 none running ∷ job 2 (some 1) success ∷ [])

abbrev early : FinishedJob
early = record report { job_id = 1 }

finish_job-Stranded_example :
    Stranded 1 (finish_job env 2 (record early { children = some [] }) hurried)
unfolding find all_settled count_where
finish_job-Stranded_example =
    finish_job-Stranded env 2 early (job 1 none running) hurried refl refl refl
