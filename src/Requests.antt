-- ===== src/Requests.antt =====
-- The views of website-backend/ava/jobs/views.py that a user calls: submit, restart, delete and
-- kill jobs, read and write their output, reload clients and start instances. A view answers with
-- an HTTP status, or raises, which Django answers with 500.
--
-- `objects.get` raises where there is no row, so the tests `if not src_job` never hold.
pub mod Rights
pub mod Allowed
pub mod Effect
pub mod Children
pub mod Restart
use ava_capture.Base.{
  ⊤, ℕ, String, ◌==◌, ltb, if◌then◌else◌, Bool, false, not, ◌&&◌, ◌||◌, Option, none, some, List,
  ◌++◌, select, count_where, length, map,
}
use ava_capture.Base.Int.{pos}
use ava_capture.Farm.{
  Env, Farm, Job, User, created, ready, running, failed, success, waiting, terminating, is, Action,
  pure, gets, modify, when, ◌>>=◌, ◌>>◌, for_each, refers, get_job, save_job, create_job,
  update_jobs, delete_jobs, has_write_access, job_key,
}

-- The fields of the posted JSON.
pub record JobRequest : Type 0 where
  pub job_id : Option ℕ
  pub clone_job : Option Bool
  pub use_same_machine : Option Bool

-- `request.data[k] if k in request.data else False`
abbrev pub flag : Option Bool → Bool
flag none = false
flag (some b) = b

-- `FarmJob(…)` with the defaults of the fields.
unfoldable pub new_job : String → String → Option String → Job
new_job job_class created_by params = record {
  id = 0;
  job_class = job_class;
  created_by = created_by;
  params = params;
  exception = none;
  node = none;
  progress = none;
  req_version = pos 1;
  req_gpu = false;
  priority = pos 50;
  parent = none;
  status = created;
  start_time = none;
  end_time = none;
  ext_take = none;
  ext_scan_assets = none;
  ext_tracking_assets = none;
  image_filename = none;
  mesh_filename = none;
}

-- The status codes.
abbrev pub Answer : Type 0
Answer = Action ℕ

unfoldable pub submit_test_job : User → String → Answer
submit_test_job user body = if not user.is_superuser then pure 403 else do
  let job = new_job "jobs.test.DummyJob" "submit_test_job" (some body)
  stored ← create_job (record job { status = ready })
  pure 200

-- `on_job_restart`: the output file goes, if there is one.
unfoldable pub on_job_restart : ℕ → Action ⊤
on_job_restart k = modify λ w. record w { outputs = select (λ e. not (e.0 == k)) w.outputs }

-- What a restart clears.
abbrev pub reset : Job → Job
reset j = record j {
  status = ready;
  exception = none;
  image_filename = none;
  mesh_filename = none;
  progress = none;
  start_time = none;
  end_time = none;
}

abbrev pub reset_on : Bool → Job → Job
reset_on use_same_machine j =
    if use_same_machine then reset j else (let fresh = reset j in record fresh { node = none })

abbrev pub is_failed_child : ℕ → Job → Bool
is_failed_child k j = refers j.parent k && is failed j.status

-- The job that a request names, for a user who may write it; `403` otherwise.
abbrev authorized : User → Option ℕ → (Job → Answer) → Answer
authorized user none view = pure 500
authorized user (some k) view = do
  src_job ← get_job k
  (if not (has_write_access src_job user) then pure 403 else view src_job)

-- The part of `restart_job_failed_child` behind its checks.
unfoldable pub restart_failed : Bool → Job → Answer
restart_failed use_same_machine src_job = do
  failed_jobs ← gets λ w. select (is_failed_child src_job.id) w.jobs
  when (ltb 0 (length failed_jobs)) (do
    for_each (λ j. on_job_restart j.id) failed_jobs
    update_jobs (is_failed_child src_job.id) (reset_on use_same_machine)
    save_job (record src_job { status = waiting }))
  pure 200

unfoldable pub restart_job_failed_child : User → JobRequest → Answer
restart_job_failed_child user req =
    authorized user req.job_id (restart_failed (flag req.use_same_machine))

abbrev pub child_keys : Job → Farm → List ℕ
child_keys j w = map job_key (select (λ c. refers c.parent j.id) w.jobs)

abbrev pub is_busy_child : ℕ → Job → Bool
is_busy_child k c = refers c.parent k && (is running c.status || is waiting c.status)

abbrev pub is_deletable : ℕ → Job → Bool
is_deletable k j = j.id == k && (is ready j.status || is success j.status || is failed j.status)

module _ (env : Env) where
  -- The `clone_job` branch of `restart_job`.
  unfoldable pub clone : User → Bool → Job → Answer
  clone user use_same_machine src_job = do
    let blank = new_job src_job.job_class user.username src_job.params
    job ← create_job (record blank {
      node = if use_same_machine then src_job.node else none;
      ext_take = src_job.ext_take;
      ext_scan_assets = src_job.ext_scan_assets;
      ext_tracking_assets = src_job.ext_tracking_assets;
      req_gpu = src_job.req_gpu;
      priority = src_job.priority;
      status = created;
    })
    modify λ w. record w {
      job_tags =
          w.job_tags ++ map (λ t. (job.id, t.1)) (select (λ t. t.0 == src_job.id) w.job_tags);
    }
    save_job (record job { status = ready })
    pure 200

  -- The other branch: the job itself is made ready, and its children go.
  unfoldable pub restart_in_place : Bool → Job → Answer
  restart_in_place use_same_machine src_job = do
    busy ← gets λ w. count_where (is_busy_child src_job.id) w.jobs
    if ltb 0 busy then pure 403 else do
      children ← gets (child_keys src_job)
      delete_jobs env children
      on_job_restart src_job.id
      save_job (reset_on use_same_machine src_job)
      pure 200

  -- The part of `restart_job` behind its check.
  unfoldable pub restart : User → JobRequest → Job → Answer
  restart user req src_job =
      if flag req.clone_job
      then clone user (flag req.use_same_machine) src_job
      else restart_in_place (flag req.use_same_machine) src_job

  unfoldable pub restart_job : User → JobRequest → Answer
  restart_job user req = authorized user req.job_id (restart user req)

  -- The part of `delete_job` behind its check.
  unfoldable pub delete : Job → Answer
  delete src_job = do
    doomed ← gets λ w. map job_key (select (is_deletable src_job.id) w.jobs)
    delete_jobs env doomed
    pure (if ltb 0 (length doomed) then 200 else 404)

  unfoldable pub delete_job : User → JobRequest → Answer
  delete_job user req = authorized user req.job_id delete

abbrev pub is_killable : ℕ → Job → Bool
is_killable k j = j.id == k && is running j.status

-- The part of `kill_job` behind its check.
unfoldable pub kill : Job → Answer
kill src_job = do
  killed ← gets λ w. count_where (is_killable src_job.id) w.jobs
  update_jobs (is_killable src_job.id) (λ j. record j { status = terminating })
  pure (if ltb 0 killed then 200 else 404)

unfoldable pub kill_job : User → JobRequest → Answer
kill_job user req = authorized user req.job_id kill
