-- ===== src/Parent.antt =====
-- How a job's change reaches its parent: `UpdateParentJob`, `onJobChanged`, `job_notification` and
-- `cleanup_dead_jobs` of website-backend/ava/jobs/views.py.
--
-- A Django object is a copy of its row. `job.parent` reads the row of the parent, `save()` writes
-- the whole row back, and a query sees what is saved. So `UpdateParentJob`, which calls
-- `onJobChanged` before `job.save()`, lets the grandparent count the old status.
pub mod Counting
pub mod Depth
pub mod Verdict
pub mod Settling
pub mod Sound
pub mod Keeping
use Prim.Native.String.{◌++◌ as ◌<>◌}
use ava_capture.Base.Decimal.{decimal}
use ava_capture.Base.{
  ⊤, ℕ, String, zero, suc, ◌+◌, ◌*◌, ◌-◌, ◌==◌, ltb, if◌then◌else◌, Bool, true, false, not, ◌&&◌,
  ◌||◌, Option, none, some, List, ◌∷◌, [], ◌++◌, select, count_where,
}
use ava_capture.Farm.{
  Env, Farm, Job, Node, Status, Notice, Color, failed, success, waiting, running, terminating, is,
  Action, pure, raise, modify, gets, when, recursion_limit, ◌>>=◌, ◌>>◌, for_each, refers, job_key,
  get_job, save_job, node_key, seconds,
}
use ava_capture.Base.Table.{find}

-- The children of a job: the rows whose `parent` is its key.
abbrev pub is_child : ℕ → Job → Bool
is_child k c = refers c.parent k

-- `job.children.filter(status=s).count()`
abbrev pub child_count : Status → ℕ → List Job → ℕ
child_count s k jobs = count_where (λ c. is_child k c && is s c.status) jobs

-- `job.children.count()`
abbrev pub all_count : ℕ → List Job → ℕ
all_count k jobs = count_where (is_child k) jobs

-- `'%d/%d Success, %d/%d Failed'`
pub progress_text : ℕ → ℕ → ℕ → String
progress_text success_count failed_count all =
    decimal success_count
    <> "/"
    <> decimal all
    <> " Success, "
    <> decimal failed_count
    <> "/"
    <> decimal all
    <> " Failed"

-- The job with the progress that its children give.
abbrev pub show_counts : Job → List Job → Job
show_counts j jobs = record j {
  progress = some (
      progress_text (child_count success j.id jobs) (child_count failed j.id jobs)
        (all_count j.id jobs));
}

-- `all_count>0 and success_count+failed_count == all_count`
unfoldable pub all_settled : ℕ → List Job → Bool
all_settled k jobs =
    ltb 0 (all_count k jobs)
    && child_count success k jobs + child_count failed k jobs == all_count k jobs

-- `'failed' if failed_count>0 else 'success'`
unfoldable pub final_status : ℕ → List Job → Status
final_status k jobs = if ltb 0 (child_count failed k jobs) then failed else success

abbrev pub has_parent : Job → Bool
has_parent j = elim j.parent [ none ↦ false | some _ ↦ true ]

-- The colour that `job_notification` picks.
abbrev pub color_of : Status → Color
color_of failed = Color.danger
color_of success = Color.good
color_of _ = Color.warning

abbrev pub notify : Notice → Action ⊤
notify n = modify λ w. record w { notices = w.notices ++ n ∷ [] }

-- The parent, read from its row, where there is one.
abbrev pub with_parent : (Job → Action ⊤) → Option ℕ → Action ⊤
with_parent update none = pure tt
with_parent update (some p) = do parent ← get_job p; update parent

module _ (env : Env) where
  unfoldable pub job_notification : Job → Action ⊤
  job_notification j = do
    when (is failed j.status && not (has_parent j) && env.notification_email)
        (notify (Notice.email j))
    when (not (has_parent j) && not (is waiting j.status) && env.slack_notif_hook)
        (notify (Notice.slack_job (color_of j.status) j))

  -- `onJobChanged`, over the update of the parent.
  unfoldable pub changed_with : (Job → Action ⊤) → Job → Action ⊤
  changed_with update j = do job_notification j; with_parent update j.parent

  -- The waiting job as it is in memory once its children have settled.
  abbrev pub settle : Job → List Job → Job
  settle j jobs =
      let shown = show_counts j jobs in
      record shown { status = final_status j.id jobs; end_time = some env.now }

  -- `UpdateParentJob` on a waiting job, over the update of its own parent. A status that did not
  -- change would be saved with no call of `onJobChanged`.
  unfoldable pub refresh : (Job → Action ⊤) → Job → Action ⊤
  refresh update j w =
      let shown = show_counts j w.jobs in
      let final = final_status j.id w.jobs in
      if all_settled j.id w.jobs
      then (if not (is final j.status)
            then changed_with update (settle j w.jobs) >> save_job (settle j w.jobs)
            else save_job (record shown { status = final }))
          w
      else save_job shown w

  -- `UpdateParentJob`, with the depth of Python's call stack as fuel.
  unfoldable pub update_parent_job : ℕ → Job → Action ⊤
  update_parent_job zero j = raise recursion_limit
  update_parent_job (suc fuel) j = when (is waiting j.status) (refresh (update_parent_job fuel) j)

  unfoldable pub on_job_changed : ℕ → Job → Action ⊤
  on_job_changed fuel j = changed_with (update_parent_job fuel) j

  -- The jobs that `cleanup_dead_jobs` gives up: no word from their node for two hours.
  abbrev pub is_dead : List Node → Job → Bool
  is_dead nodes j = (is running j.status || is terminating j.status) && elim j.node [
    | none ↦ false
    | some k ↦ elim (find node_key k nodes) [
      | none ↦ false
      | some n ↦ ltb n.last_seen (env.now - seconds (2 * 60 * 60))
    ]
  ]

  -- The body of the loops over lost jobs: the copy of the row is marked and written back.
  unfoldable pub fail_lost : ℕ → Job → Action ⊤
  fail_lost fuel j =
      let lost = record j { status = failed } in do save_job lost; on_job_changed fuel lost

  unfoldable pub cleanup_dead_jobs : ℕ → Action ⊤
  cleanup_dead_jobs fuel = do
    lost ← gets λ w. select (is_dead w.nodes) w.jobs
    for_each (fail_lost fuel) lost
