-- ===== src/Discover.antt =====
-- `post_client_discover` of website-backend/ava/jobs/views.py: a job client reports its machine,
-- its running and its finished jobs, and gets work.
pub mod Report
pub mod Machine
pub mod Lost
pub mod Outcome
pub mod Finished
pub mod Marked
pub mod Stranded
use ava_capture.Base.{
  ⊤, ℕ, String, ◌==◌, if◌then◌else◌, Bool, true, false, not, ◌&&◌, ◌||◌, Option, none, some, List,
  [], ◌∷◌, ◌++◌, select, contains, map, str_eq,
}
use ava_capture.Base.Int.{pos}
use ava_capture.Farm.{
  Env, Farm, Job, Node, ready, reserved, running, failed, success, waiting, terminating, is, Action,
  pure, raise, or_raise, key_error, invalid_request, gets, when, except_missing, for_each, ◌>>=◌,
  ◌>>◌, refers, state_is, get_job, save_job, create_job, update_jobs, job_key,
}
use ava_capture.Aws.{same_text}
use ava_capture.Parent.{on_job_changed, fail_lost, cleanup_dead_jobs}
use ava_capture.Requests.{new_job, flag}
use ava_capture.Scheduler.{Offer, excluded_tags, schedule}
use Report.{ChildInfo, detailed, legacy, FinishedJob, ClientReport, JobData, Reply, empty, work}
use Machine.{given, make_sure_node_exists, update_machine, update_tags}

-- The rows that a progress report changes: not terminating, and not running with this progress.
abbrev pub takes_progress : ℕ → String → Job → Bool
takes_progress k progress j =
    j.id == k
    && not (is terminating j.status)
    && (not (is running j.status) || not (same_text j.progress (some progress)))

unfoldable pub mark_progress : ℕ × String → Action ⊤
mark_progress (k, progress) =
    update_jobs (takes_progress k progress)
      (λ j. record j { status = running; progress = some progress })

abbrev pub starts_running : List ℕ → Job → Bool
starts_running keys j =
    contains keys j.id && not (is terminating j.status) && not (is running j.status)

-- `running_jobs_progress`, or the plain `running_jobs` of older clients.
unfoldable pub mark_running : Option (List (ℕ × String)) → Option (List ℕ) → Action ⊤
mark_running (some reports) _ = for_each mark_progress reports
mark_running none (some keys) =
    update_jobs (starts_running keys) (λ j. record j { status = running })
mark_running none none = pure tt

-- Running here by the database and not by the client.
abbrev pub is_lost : ℕ → List ℕ → Job → Bool
is_lost node keys j =
    (is running j.status || is terminating j.status)
    && refers j.node node
    && not (contains keys j.id)

abbrev pub job_data : Job → JobData
job_data j = record { job_id = j.id; job_class = j.job_class; params = j.params }

abbrev pub is_reserved_for : ℕ → Job → Bool
is_reserved_for node j = is reserved j.status && refers j.node node

abbrev pub accepts : Node → Bool
accepts n =
    str_eq n.status "accepting"
    && (elim n.aws_instance_id [ none ↦ true | some _ ↦ false ]
        || state_is n.aws_instance_state "running")

abbrev pub is_terminating_on : ℕ → Job → Bool
is_terminating_on node j = is terminating j.status && refers j.node node

module _ (env : Env) where
  -- A child that a yielding job asks for.
  unfoldable pub spawn : Job → ChildInfo → Action ⊤
  spawn parent (detailed job_class params node_name) = do
    target ← elim node_name [
      | none ↦ pure none
      | some name ↦ do n ← make_sure_node_exists env name; pure (some n.id)
    ]
    let child = new_job job_class parent.created_by (some params)
    stored ← create_job (record child {
      status = ready;
      parent = some parent.id;
      node = target;
      req_version = parent.req_version;
      req_gpu = parent.req_gpu;
    })
    pure tt
  spawn parent (legacy job_class params) = do
    let child = new_job job_class parent.created_by (some params)
    stored ← create_job (record child { status = ready; parent = some parent.id })
    pure tt

  -- The new copy of a job that the client has finished with: it yields to its children, has
  -- succeeded, or has failed with the text of its exception.
  abbrev pub outcome_by : Option (List ChildInfo) → Bool → Option String → Job → Action Job
  outcome_by (some infos) succeeded exception j = do
    for_each (spawn j) infos
    pure (record j { status = waiting })
  outcome_by none true exception j = pure (record j { status = success; end_time = some env.now })
  outcome_by none false none j = raise key_error
  outcome_by none false (some text) j =
      pure (record j { status = failed; exception = some text; end_time = some env.now })

  unfoldable pub outcome : FinishedJob → Job → Action Job
  outcome f = outcome_by f.children (flag f.success) f.exception

  unfoldable pub finish_job : ℕ → FinishedJob → Action ⊤
  finish_job fuel f = except_missing (do
    this_job ← get_job f.job_id
    done ← outcome f (record this_job { progress = some (given f.progress "") })
    save_job done
    on_job_changed env fuel done)

  unfoldable pub finish_jobs : ℕ → Option (List FinishedJob) → Action ⊤
  finish_jobs fuel none = pure tt
  finish_jobs fuel (some fs) = for_each (finish_job fuel) fs

  unfoldable pub fail_lost_jobs : ℕ → ℕ → Option (List ℕ) → Action ⊤
  fail_lost_jobs fuel node none = pure tt
  fail_lost_jobs fuel node (some keys) = do
    lost ← gets λ w. select (is_lost node keys) w.jobs
    for_each (fail_lost env fuel) lost

  -- The reply, with the jobs that were terminating before the report was taken in.
  unfoldable pub answer : Offer → List ℕ → Action Reply
  answer o to_kill = if not (accepts o.node) then pure empty else do
    schedule env o
    jobs ← gets λ w. select (is_reserved_for o.node.id) w.jobs
    pure (work (map job_data jobs) to_kill o.node.req_restart)

  unfoldable pub client_discover : ℕ → ClientReport → Action Reply
  client_discover fuel r = do
    cleanup_dead_jobs env fuel
    status ← or_raise r.status invalid_request
    node ← update_machine env r status
    tags ← update_tags node r.client_tags
    excluded ← gets λ w. excluded_tags w.node_tags tags
    let offer : Offer = record {
      node = node;
      available = given r.available_jobs [];
      excluded = excluded;
    }
    to_kill ← gets λ w. map job_key (select (is_terminating_on node.id) w.jobs)
    mark_running r.running_jobs_progress r.running_jobs
    finish_jobs fuel r.finished_jobs
    fail_lost_jobs fuel node.id r.running_jobs
    answer offer to_kill
