-- ===== src/Client.antt =====
-- The job client, job_client/job_client.py: a process per job, a container with a thread per job,
-- and the exchange with the site.
--
-- What a job's process does, and which job classes load, comes from outside. A thread of the
-- container runs `wrapper`: it waits for the process, puts the job under its key in `finished_jobs`
-- and then takes it out of `running_jobs`. `published` has the keys of the threads that are between
-- these two statements.
pub mod Exchange
pub mod Reported
pub mod Steps
pub mod Held
pub mod Refines
use ava_capture.Base.{
  ⊤, ℕ, String, ◌==◌, if◌then◌else◌, Bool, true, false, not, ◌||◌, Option, none, some, List, [],
  ◌∷◌, ◌++◌, select, contains, any_of, map,
}
use ava_capture.Base.Table.{find, save}
use ava_capture.Discover.Report.{ChildInfo, FinishedJob, JobData}

-- The dict that a job's process puts in its queue, or that is made for it.
pub record JobResult : Type 0 where
  pub job_id : ℕ
  pub success : Option Bool
  pub waiting : Option Bool
  pub retcode : ℕ
  pub exception : Option String
  pub children : Option (List ChildInfo)
  pub progress : Option String

-- How the call of the job ends: it returns a code, yields to children, or raises.
pub data Ending : Type 0 where
  returned : (retcode : ℕ) → Ending
  yielded : (children : List ChildInfo) → Ending
  raised : (traceback : String) → Ending

abbrev failure : ℕ → String → Option String → JobResult
failure job_id exception progress = record {
  job_id = job_id;
  success = some false;
  waiting = none;
  retcode = 1;
  exception = some exception;
  children = none;
  progress = progress;
}

-- What `job_process` puts in the queue.
unfoldable pub job_process : ℕ → Ending → JobResult
job_process job_id (returned retcode) = record {
  job_id = job_id;
  success = some true;
  waiting = none;
  retcode = retcode;
  exception = none;
  children = none;
  progress = none;
}
job_process job_id (yielded children) = record {
  job_id = job_id;
  success = none;
  waiting = some true;
  retcode = 0;
  exception = none;
  children = some children;
  progress = none;
}
job_process job_id (raised traceback) = failure job_id traceback none

-- `JobInstance`
pub record JobInstance : Type 0 where
  pub parameters : Option String
  pub job_class : String
  pub job_id : ℕ
  pub result : Option JobResult
  pub completed : Bool
  pub status : String
  pub terminated : Bool

-- `JobInstance.__init__`: `refusal` is the traceback of the import and of the two checks.
unfoldable pub new_instance : Option String → JobData → JobInstance
new_instance refusal d =
    let fresh : JobInstance = record {
      parameters = d.params;
      job_class = d.job_class;
      job_id = d.job_id;
      result = none;
      completed = false;
      status = "";
      terminated = false;
    } in
    elim refusal [
      | none ↦ fresh
      | some text ↦ record fresh {
        completed = true;
        result = some (failure d.job_id text (some ""));
      }
    ]

-- `output_received_from_job`
unfoldable pub output_received_from_job : String → JobInstance → JobInstance
output_received_from_job text j = record j { status = text }

-- `JobInstance.terminate`: the flag is set, whether the process could be killed or not.
unfoldable pub terminate : JobInstance → JobInstance
terminate j = record j { terminated = true }

-- The loops over the messages in the pipe.
unfoldable pub receive_all : List String → JobInstance → JobInstance
receive_all [] j = j
receive_all (text ∷ texts) j = receive_all texts (output_received_from_job text j)

-- The choice of the result, from the flag, the queue and the last output.
unfoldable pub gather : List JobResult → JobInstance → JobResult
gather queue j =
    if j.terminated
    then failure j.job_id "Terminated by server" (some "terminated")
    else elim queue [
      | [] ↦ failure j.job_id "Job process terminated abnormally" (some "failed")
      | r ∷ rest ↦ record r { progress = some j.status }
    ]

-- `blocking_run`, once the process is gone.
unfoldable pub blocking_run : List String → List JobResult → JobInstance → JobInstance
blocking_run texts queue j =
    let heard = receive_all texts j in record heard { result = some (gather queue heard) }

-- What `wrapper` puts in `finished_jobs`.
unfoldable pub completed_by : List String → List JobResult → JobInstance → JobInstance
completed_by texts queue j = if j.completed then j else blocking_run texts queue j

-- `JobContainer`
pub record Container : Type 0 where
  pub running_jobs : List (ℕ × JobInstance)
  pub finished_jobs : List (ℕ × JobInstance)
  pub published : List ℕ

abbrev pub entry_key : ℕ × JobInstance → ℕ
entry_key e = e.0

-- `del d[k]`
abbrev pub without : ℕ → List (ℕ × JobInstance) → List (ℕ × JobInstance)
without k d = select (λ e. not (e.0 == k)) d

abbrev pub holds : List (ℕ × JobInstance) → ℕ → Bool
holds d k = any_of (λ e. e.0 == k) d

-- The two statements with which `wrapper` ends.
unfoldable pub publish : ℕ → JobInstance → Container → Container
publish k j c = record c {
  finished_jobs = save entry_key (k, j) c.finished_jobs;
  published = k ∷ c.published;
}

unfoldable pub leave : ℕ → Container → Container
leave k c = record c {
  running_jobs = without k c.running_jobs;
  published = select (λ i. not (i == k)) c.published;
}

-- A thread takes an output of its job's process in.
unfoldable pub hear : ℕ → String → Container → Container
hear k text c = record c {
  running_jobs =
      map
        (λ (e : ℕ × JobInstance). if e.0 == k then (e.0, output_received_from_job text e.1) else e)
        c.running_jobs;
}

-- `terminate_job`
unfoldable pub terminate_job : ℕ → Container → Container
terminate_job k c = record c {
  running_jobs =
      map (λ (e : ℕ × JobInstance). if e.0 == k then (e.0, terminate e.1) else e) c.running_jobs;
}

-- `submit_job`: `none` is the exception for a key that is in `running_jobs`.
unfoldable pub submit_job : (String → Option String) → JobData → Container → Option Container
submit_job refusal d c =
    if holds c.running_jobs d.job_id
    then none
    else some (record c {
      running_jobs = c.running_jobs ++ (d.job_id, new_instance (refusal d.job_class) d) ∷ [];
    })

-- The exception of a submission ends the loop.
abbrev pub go_on : (Container → Bool × Container) → Container → Option Container → Bool × Container
go_on rest c none = (false, c)
go_on rest c (some c') = rest c'

-- The loop over `data['jobs']`; the flag tells that it came to its end.
unfoldable pub submit_all : (String → Option String) → List JobData → Container → Bool × Container
submit_all refusal [] c = (true, c)
submit_all refusal (d ∷ ds) c = go_on (submit_all refusal ds) c (submit_job refusal d c)

-- The loop over `data['jobs_to_kill']`.
unfoldable pub terminate_all : List ℕ → Container → Container
terminate_all [] c = c
terminate_all (k ∷ ks) c = terminate_all ks (terminate_job k c)

-- `del self.container.finished_jobs[…]` for the results of the report that the site has answered.
unfoldable pub purge : List ℕ → Container → Container
purge keys c = record c { finished_jobs = select (λ e. not (contains keys e.0)) c.finished_jobs }

-- What `phone_home` does with the reply to a report of `keys`: the exception of a job that runs
-- already ends it.
unfoldable pub take_reply :
    (String → Option String) → List ℕ → List JobData → List ℕ → Container → Container
take_reply refusal keys jobs jobs_to_kill c =
    let (done, submitted) = submit_all refusal jobs (purge keys c) in
    if done then terminate_all jobs_to_kill submitted else submitted

-- The entry of `finished_jobs` in a report, as the site reads it.
abbrev pub reported : JobResult → FinishedJob
reported r = record {
  job_id = r.job_id;
  progress = r.progress;
  children = r.children;
  success = r.success;
  exception = r.exception;
}
