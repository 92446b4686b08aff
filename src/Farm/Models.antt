-- ===== src/Farm/Models.antt =====
-- The tables of website-backend/ava/jobs/models.py, and what the views take from outside: the
-- clock, the database's text comparison, Django's cascade, EC2 and the site's settings.
--
-- Times are whole microseconds. A many-to-many field is a table of pairs, as in the database. The
-- stamps `created`, `modified` and `status_changed` of model_utils, which only the list views
-- order by, are left out, and a percentage, which is only stored, is kept as its text.
use ava_capture.Base.{ℕ, String, Bool, Option, List}
use ava_capture.Base.Int.{ℤ}
use ava_capture.Base.Effects.{Effect}

-- `FarmJob.STATUS`
pub data Status : Type 0 where
  created ready reserved running failed success waiting terminating : Status

-- `FarmJob`
pub record Job : Type 0 where
  pub id : ℕ
  pub job_class : String
  pub created_by : String
  pub params : Option String
  pub exception : Option String
  pub node : Option ℕ
  pub progress : Option String
  pub req_version : ℤ
  pub req_gpu : Bool
  pub priority : ℤ
  pub parent : Option ℕ
  pub status : Status
  pub start_time : Option ℕ
  pub end_time : Option ℕ
  pub ext_take : Option ℕ
  pub ext_scan_assets : Option ℕ
  pub ext_tracking_assets : Option ℕ
  pub image_filename : Option String
  pub mesh_filename : Option String

-- `FarmNode`. The state of an AWS instance is `none` only in memory: the column is NOT NULL.
pub record Node : Type 0 where
  pub id : ℕ
  pub ip_address : String
  pub machine_name : String
  pub last_seen : ℕ
  pub last_job_activity : Option ℕ
  pub code_version : ℤ
  pub git_version : Option String
  pub req_restart : Bool
  pub active : Bool
  pub system : Option String
  pub system_bits : Option ℕ
  pub cpu_brand : Option String
  pub cpu_cores : Option ℕ
  pub gpu_count : Option ℤ
  pub cpu_percent : String
  pub virt_percent : String
  pub os_version : Option String
  pub status : String
  pub group : Option ℕ
  pub aws_instance_id : Option String
  pub aws_instance_region : Option String
  pub aws_instance_state : Option String
  pub aws_instance_state_changed : ℕ
  pub aws_auto_shutdown : Bool

-- The colours of the Slack messages.
pub data Color : Type 0 where
  danger good warning : Color

-- What leaves the site: an email to the owner of a job, or a Slack message about a job, with the
-- job as it is in memory then; a Slack message that an AWS instance is stopped, with the count.
pub data Notice : Type 0 where
  email : Job → Notice
  slack_job : Color → Job → Notice
  slack_stopping : String → ℕ → Notice

-- The database, the output files of the jobs (static/thumb) and what was sent.
pub record Farm : Type 0 where
  pub jobs : List Job
  pub nodes : List Node
  pub dependencies : List (ℕ × ℕ)
  pub job_tags : List (ℕ × String)
  pub node_tags : List (ℕ × String)
  pub next_job : ℕ
  pub next_node : ℕ
  pub outputs : List (ℕ × List ℕ)
  pub notices : List Notice

pub record User : Type 0 where
  pub username : String
  pub is_superuser : Bool

-- An instance in an answer of EC2: `get('InstanceId')`, and `get('State').get('Name')` where there
-- is a `State` (`CurrentState` in the answers to start and stop).
pub record Instance : Type 0 where
  pub instance_id : Option String
  pub state : Option (Option String)

-- The calls of boto3, by region: the reservations with their instances, or `none` for an exception.
pub record Ec2 : Type 0 where
  pub describe_by_ip : (region ip : String) → Option (List (List Instance))
  pub describe_by_id : (region instance_id : Option String) → Option (List (List Instance))
  pub start_instances : (instance_id region : Option String) → Option (List Instance)
  pub stop_instances : (instance_id region : Option String) → Option (List Instance)

pub record Env : Type 0 where
  -- `timezone.now()`; all the reads of the clock in one request give one instant
  pub now : ℕ
  -- the database's `iexact`, and the order of `machine_name`
  pub same_name : String → String → Bool
  pub name_le : String → String → Bool
  -- the keys of all jobs that `delete()` removes with the given ones (`on_delete=CASCADE`)
  pub collect : List Job → List ℕ → List ℕ
  -- `MonitorField`: the stamp to store, from the old and new value, the old stamp and the time
  pub monitor : (before after : Option String) (stamp now : ℕ) → ℕ
  pub ec2 : Ec2
  pub notification_email : Bool
  pub slack_notif_hook : Bool

-- `Status` by cases.
abbrev pub is : Status → Status → Bool
is created created = Bool.true
is ready ready = Bool.true
is reserved reserved = Bool.true
is running running = Bool.true
is failed failed = Bool.true
is success success = Bool.true
is waiting waiting = Bool.true
is terminating terminating = Bool.true
is _ _ = Bool.false

-- A view of the farm.
abbrev pub Action : Type 0 → Type 0
Action A = Effect Farm A
