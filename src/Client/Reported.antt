-- ===== src/Client/Reported.antt =====
-- What the site makes of the results that a client reports.
use ava_capture.Base.{ℕ, String, ◌≡◌, refl, Bool, true, false, Option, none, some, List, [], ◌∷◌}
use ava_capture.Farm.{Status, success, failed, waiting}
use ava_capture.Discover.Report.{JobData}
use ava_capture.Discover.Outcome.{reported_status}
use ava_capture.Client.{
  JobResult, Ending, returned, yielded, raised, JobInstance, job_process, new_instance, receive_all,
  gather, blocking_run, completed_by, reported, output_received_from_job,
}

-- The status that a job deserves: from the refusal of its class, the request to terminate it and
-- its ending.
pub deserved : Option String → Bool → Ending → Status
deserved (some text) terminated e = failed
deserved none true e = failed
deserved none false (returned code) = success
deserved none false (yielded children) = waiting
deserved none false (raised text) = failed

receive_all-terminated :
    (texts : List String) (j : JobInstance) → (receive_all texts j).terminated ≡ j.terminated
unfolding receive_all output_received_from_job
receive_all-terminated [] j = refl
receive_all-terminated (t ∷ texts) j = receive_all-terminated texts (output_received_from_job t j)

receive_all-job_id :
    (texts : List String) (j : JobInstance) → (receive_all texts j).job_id ≡ j.job_id
unfolding receive_all output_received_from_job
receive_all-job_id [] j = refl
receive_all-job_id (t ∷ texts) j = receive_all-job_id texts (output_received_from_job t j)

-- A result, under its key, that the site turns into the given status.
abbrev pub Earns : ℕ → Status → Option JobResult → Type 0
Earns k s o =
    (r : JobResult) × (o ≡ some r) × (r.job_id ≡ k) × (reported_status (reported r) ≡ some s)

gather-Earns :
    (k : ℕ) (e : Ending) (j : JobInstance) (t : Bool)
    → j.job_id ≡ k
    → j.terminated ≡ t
    → Earns k (deserved none t e) (some (gather (job_process k e ∷ []) j))
unfolding gather job_process deserved
gather-Earns k e j true key flag =
    (gather (job_process k e ∷ []) j, refl, rw flag key, rw flag refl)
gather-Earns k (returned code) j false key flag =
    (gather (job_process k (returned code) ∷ []) j, refl, rw flag refl, rw flag refl)
gather-Earns k (yielded children) j false key flag =
    (gather (job_process k (yielded children) ∷ []) j, refl, rw flag refl, rw flag refl)
gather-Earns k (raised text) j false key flag =
    (gather (job_process k (raised text) ∷ []) j, refl, rw flag refl, rw flag refl)

-- A job that the client was given, and whose process has put its result in the queue, ends with a
-- result under the job's key, and the site reads the status that the job deserves from its report,
-- never a KeyError: success where the call returned, waiting where it yielded, failed where it
-- raised, was terminated or its class was refused.
pub completed_by-Earns :
    (refusal : Option String) (terminated : Bool) (texts : List String) (e : Ending) (d : JobData)
    → Earns d.job_id (deserved refusal terminated e) (
        let j = new_instance refusal d in
        (completed_by texts
          (job_process d.job_id e ∷ [])
          (record j { terminated = terminated })).result)
unfolding completed_by blocking_run new_instance deserved
completed_by-Earns (some text) t texts e d = (_, refl, refl, refl)
completed_by-Earns none t texts e d =
    let j = new_instance none d in
    let ready = record j { terminated = t } in
    gather-Earns d.job_id e (receive_all texts ready) t (receive_all-job_id texts ready)
      (receive_all-terminated texts ready)
