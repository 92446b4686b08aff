-- ===== src/Tests/LaunchRuns.antt =====
-- Jobs that a running job launches, on a small farm where the other running jobs end meanwhile.
use mathlib.Core.Option
use ava_capture.Base.{
  ◌≡◌, refl, sym, subst, ◌∙◌, true, false, none, some, [], ◌∷◌, arith, ℕ, Option, if◌then◌else◌,
  Bool, str_eq, length, ◌≤◌, select,
}
use ava_capture.Base.Effects.Rules.{Ends}
use ava_capture.Base.Table.{find, find-update_where, update_where}
use ava_capture.Farm.{Farm, Job, running, success, is, ok, job_key}
use ava_capture.JobApi.{Rest, is_valid}
use ava_capture.Launch.{Call, call_of, launch_job, fields_of}
use ava_capture.Launch.Stored.{Respects}
use ava_capture.Launch.Held.{HeldBack}
use ava_capture.Launch.Posted.{IsFresh}
use ava_capture.Launch.Launched.{Launched, launch_job-Launched}
use ava_capture.Launch.Existing.{KeepsJobs, Acceptable}
use ava_capture.Launch.Returns.{launch_job_returns}
use ava_capture.Tests.Samples.{env, job, farm, ann, machine}

-- Every running job ends.
abbrev pub end_running : Farm → Farm
end_running w = record w {
  jobs = update_where (λ j. is running j.status) (λ j. record j { status = success }) w.jobs;
}

end_running-Respects : Respects end_running
end_running-Respects = record {
  at = λ name j ds ts w e h. record {
    row =
        find-update_where job_key (λ i. is running i.status) (λ i. record i { status = success })
          j.id w.jobs (λ i. refl)
        ∙ rw h.row (rw e refl);
    machine = h.machine;
    dependency = h.dependency;
    tag = h.tag;
  };
}

end_running-KeepsJobs : KeepsJobs end_running
end_running-KeepsJobs d w h =
    subst (λ o. there o ≡ true)
      (sym (
        find-update_where job_key (λ i. is running i.status) (λ i. record i { status = success }) d
          w.jobs (λ i. refl)))
      (by_row (find job_key d w.jobs) h)
  where
    there : Option Job → Bool
    there o = elim o [ none ↦ false | some _ ↦ true ]

    by_row :
        (o : Option Job)
        → there o ≡ true
        → there (
            Option.map
              (λ (a : Job). if is running a.status then record a { status = success } else a)
              o)
          ≡ true
    by_row none h = absurd (cc)
    by_row (some a) h = refl

abbrev pub rest : Rest
rest = record {
  accepts = λ _. true;
  has_take = λ _. true;
  has_scan_asset = λ _. true;
  has_tracking_asset = λ _. true;
}

abbrev workers : Farm
workers = farm (job 1 none running ∷ job 2 none running ∷ [])

workers-IsFresh : IsFresh workers
unfolding find
workers-IsFresh = record { job = refl; dependency = λ d m. elim m [ ]; tag = λ t m. elim m [ ] }

-- A job for a machine that is known, after the second job.
abbrev after_two : Call
after_two = record (call_of "jobs.archive.CopyFiles") {
  node_name = some "render1";
  dependency_list = 2 ∷ [];
  tags = "gpu" ∷ [];
}

launch_job-Launched_example :
    Ends
      (λ k w'. (k ≡ 100) × Launched ann (some 1) after_two workers k w')
      (HeldBack 100)
      (launch_job env rest ann end_running (some 1) after_two workers)
launch_job-Launched_example =
    launch_job-Launched env rest ann (some 1) after_two end_running end_running-Respects workers
      workers-IsFresh

-- One machine has at most one row of any name.
pub one_row : (b : Bool) → length (if b then machine ∷ [] else []) ≤ 1
one_row true = omega arith
one_row false = omega arith

after_two-Acceptable : Acceptable rest (some 1) after_two workers
unfolding is_valid fields_of find select
after_two-Acceptable = record {
  valid = refl;
  machine = λ name e. one_row (str_eq "render1" name);
  dependencies = refl;
}

launch_job_returns_example :
    (k : ℕ) × (w' : Farm) × (launch_job env rest ann end_running (some 1) after_two workers
      ≡ (ok k, w'))
    × Launched ann (some 1) after_two workers k w'
launch_job_returns_example =
    launch_job_returns env rest ann (some 1) after_two end_running end_running-Respects
      end_running-KeepsJobs workers workers-IsFresh after_two-Acceptable
