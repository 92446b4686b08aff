-- ===== src/Tests/Samples.antt =====
-- A small farm: its environment, jobs and machines.
use ava_capture.Base.{
  ℕ, zero, suc, str_eq, true, false, Option, none, some, List, [], ◌∷◌, ◌++◌, contains, select, map,
}
use ava_capture.Base.Int.{pos}
use ava_capture.Farm.{Env, Farm, Job, Node, Status, Ec2, User, job_key}

-- The keys with those of their children, of the children's children, and so on.
unfoldable pub descend : ℕ → List Job → List ℕ → List ℕ
descend zero jobs keys = keys
descend (suc n) jobs keys =
    keys
    ++ descend n jobs
        (map job_key (select (λ j. elim j.parent [ none ↦ false | some p ↦ contains keys p ]) jobs))

abbrev pub no_ec2 : Ec2
no_ec2 = record {
  describe_by_ip = λ _ _. some [];
  describe_by_id = λ _ _. some [];
  start_instances = λ _ _. none;
  stop_instances = λ _ _. none;
}

abbrev pub env : Env
env = record {
  now = 10_000_000_000;
  same_name = str_eq;
  name_le = λ _ _. true;
  collect = λ jobs keys. descend 5 jobs keys;
  monitor = λ _ _ stamp _. stamp;
  ec2 = no_ec2;
  notification_email = true;
  slack_notif_hook = true;
}

abbrev pub job : ℕ → Option ℕ → Status → Job
job id parent status = record {
  id = id;
  job_class = "jobs.archive.ExportTake";
  created_by = "ann";
  params = none;
  exception = none;
  node = none;
  progress = none;
  req_version = pos 1;
  req_gpu = false;
  priority = pos 50;
  parent = parent;
  status = status;
  start_time = none;
  end_time = none;
  ext_take = none;
  ext_scan_assets = none;
  ext_tracking_assets = none;
  image_filename = none;
  mesh_filename = none;
}

abbrev pub machine : Node
machine = record {
  id = 1;
  ip_address = "10.0.0.1";
  machine_name = "render1";
  last_seen = 9_990_000_000;
  last_job_activity = none;
  code_version = pos 3;
  git_version = none;
  req_restart = false;
  active = true;
  system = none;
  system_bits = none;
  cpu_brand = none;
  cpu_cores = none;
  gpu_count = some (pos 0);
  cpu_percent = "0.0";
  virt_percent = "0.0";
  os_version = none;
  status = "accepting";
  group = none;
  aws_instance_id = none;
  aws_instance_region = none;
  aws_instance_state = some "none";
  aws_instance_state_changed = 0;
  aws_auto_shutdown = true;
}

abbrev pub farm : List Job → Farm
farm jobs = record {
  jobs = jobs;
  nodes = machine ∷ [];
  dependencies = [];
  job_tags = [];
  node_tags = [];
  next_job = 100;
  next_node = 2;
  outputs = [];
  notices = [];
}

abbrev pub ann : User
ann = record { username = "ann"; is_superuser = false }
