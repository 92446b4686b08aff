-- ===== src/Client/Exchange.antt =====
-- `phone_home` of job_client/job_client.py: the report that a client sends, and what it does with
-- the answer of the site.
use mathlib.Core.Option
use ava_capture.Base.{
  ℕ, String, Bool, true, false, not, ◌&&◌, ◌||◌, Option, none, some, List, [], ◌∷◌, map,
}
use ava_capture.Base.Int.{ℤ}
use ava_capture.Discover.Report.{ClientReport, FinishedJob, JobData, Reply, empty, work}
use ava_capture.Client.{
  JobResult, JobInstance, Container, entry_key, reported, holds, take_reply, purge,
}

-- What the client knows of its machine.
pub record Machine : Type 0 where
  pub hostname : String
  pub ip : String
  pub version : ℤ
  pub system : String
  pub bits : ℕ
  pub brand : String
  pub count : ℕ
  pub cuda_device_count : ℤ
  pub available_job_classes : List String
  pub cpu_percent : String
  pub mem_used : String
  pub git_version : String
  pub tags : List String

-- The state of `JobClient` that the exchange changes.
pub record JobClient : Type 0 where
  pub container : Container
  pub first_update : Bool
  pub need_restart : Bool
  pub status_changed : Bool

abbrev add_result : Option JobResult → Option (List FinishedJob) → Option (List FinishedJob)
add_result (some r) (some rest) = some (reported r ∷ rest)
add_result _ _ = none

-- The results of the finished jobs, one after the other. A job without a result is sent as null,
-- which the site cannot read: `none`.
unfoldable pub results : List (ℕ × JobInstance) → Option (List FinishedJob)
results [] = some []
results (e ∷ d) = add_result e.1.result (results d)

-- `payload`: the three reads of the container find it in the states `a`, `b` and `c`.
unfoldable pub payload : Machine → Bool → (a b c : Container) → Option ClientReport
payload m first_update a b c =
    Option.map
      (λ finished. record {
        status = some "accepting";
        machine_name = m.hostname;
        ip_address = m.ip;
        system = some m.system;
        system_bits = some m.bits;
        cpu_brand = some m.brand;
        cpu_cores = some m.count;
        cuda_device_count = some m.cuda_device_count;
        restarted = some first_update;
        cpu_percent = some m.cpu_percent;
        mem_used = some m.mem_used;
        os_version = none;
        code_version = some m.version;
        git_version = some m.git_version;
        client_tags = some m.tags;
        available_jobs = some m.available_job_classes;
        running_jobs_progress =
            some (map (λ (e : ℕ × JobInstance). (e.0, e.1.status)) b.running_jobs);
        running_jobs = some (map entry_key a.running_jobs);
        finished_jobs = some finished;
      })
      (results c.finished_jobs)

-- The answer of the site: a reply with code 200, or another code.
pub data HttpAnswer : Type 0 where
  accepted : (reply : Reply) → HttpAnswer
  refused : (status_code : ℕ) → HttpAnswer

-- Whether the first job of a reply, and so any, is submitted.
abbrev starts_one : List JobData → Container → Bool
starts_one [] c = false
starts_one (d ∷ ds) c = not (holds c.running_jobs d.job_id)

-- The part of `phone_home` behind the request, for a report of the finished jobs `keys`.
unfoldable pub phone_home : (String → Option String) → List ℕ → HttpAnswer → JobClient → JobClient
phone_home refusal keys (refused status_code) client = client
phone_home refusal keys (accepted empty) client = record client {
  first_update = false;
  container = purge keys client.container;
}
phone_home refusal keys (accepted (work jobs jobs_to_kill req_restart)) client = record client {
  first_update = false;
  need_restart = client.need_restart || req_restart;
  container = take_reply refusal keys jobs jobs_to_kill client.container;
  status_changed = client.status_changed || starts_one jobs client.container;
}

abbrev is_empty {ℓ} : {A : Type ℓ} → List A → Bool
is_empty [] = true
is_empty (x ∷ xs) = false

-- When `loop_forever` ends the process for a restart.
unfoldable pub may_restart : JobClient → Bool
may_restart client =
    client.need_restart
    && is_empty client.container.running_jobs
    && is_empty client.container.finished_jobs
