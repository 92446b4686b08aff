-- ===== src/Farm/Methods.antt =====
-- The methods of `FarmNode` and `FarmJob` in website-backend/ava/jobs/models.py.
use ava_capture.Base.{
  ℕ, String, ◌+◌, ◌-◌, ◌*◌, ◌==◌, ltb, leb, str_eq, if◌then◌else◌, Bool, true, false, not, ◌&&◌,
  ◌||◌, Option, none, some, List, select, count_where,
}
use ava_capture.Farm.Models.{Job, Node, Farm, User, running, reserved, is}
use ava_capture.Farm.Store.{refers, truthy}

abbrev pub seconds : ℕ → ℕ
seconds n = n * 1000000

abbrev pub minutes : ℕ → ℕ
minutes n = seconds (n * 60)

-- `FarmNode.has_write_access`
abbrev pub node_has_write_access : User → Bool
node_has_write_access user = user.is_superuser

-- `FarmJob.has_write_access`
unfoldable pub has_write_access : Job → User → Bool
has_write_access j user = str_eq j.created_by user.username || user.is_superuser

unfoldable pub running_jobs : Node → Farm → List Job
running_jobs n w = select (λ j. refers j.node n.id && is running j.status) w.jobs

-- The truncated `now - 90 s` admits the same nodes as the signed one.
unfoldable pub is_active : ℕ → Node → Bool
is_active now n = str_eq n.status "accepting" && leb (now - seconds 90) n.last_seen

abbrev pub state_is : Option String → String → Bool
state_is none s = false
state_is (some t) s = str_eq t s

unfoldable pub actual_status : ℕ → Node → String
unfolding is_active
actual_status now n =
    if not (is_active now n)
      || (truthy n.aws_instance_id && not (state_is n.aws_instance_state "running"))
    then "offline"
    else n.status

-- `now - t > span`, for instants that may lie ahead of `now`
abbrev pub elapsed : ℕ → ℕ → ℕ → Bool
elapsed now t span = ltb (t + span) now

abbrev idle : ℕ → Option ℕ → Bool
idle now none = true
idle now (some t) = elapsed now t (minutes 10)

unfoldable pub aws_instance_should_be_stopped : ℕ → Node → Farm → Bool
aws_instance_should_be_stopped now n w =
    truthy n.aws_instance_id
    && n.aws_auto_shutdown
    && state_is n.aws_instance_state "running"
    && elapsed now n.aws_instance_state_changed (minutes 10)
    && idle now n.last_job_activity
    && (count_where (λ j. refers j.node n.id && (is running j.status || is reserved j.status))
        w.jobs)
      == 0
