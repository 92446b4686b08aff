-- ===== src/Farm/Store.antt =====
-- The queries and writes of the views on the tables.
use ava_capture.Base.{
  ⊤, ℕ, String, ◌+◌, ◌==◌, str_eq, Bool, true, false, not, ◌&&◌, Option, none, some, List, [], ◌∷◌,
  ◌++◌, select, contains,
}
use ava_capture.Base.Table.{find, save, update_where}
use ava_capture.Base.Int.{pos}
use ava_capture.Farm.Models.{Action, Job, Node, Env}
use ava_capture.Base.Effects.{does_not_exist, integrity_error, ok, err, or_raise, modify}

abbrev pub job_key : Job → ℕ
job_key j = j.id

abbrev pub node_key : Node → ℕ
node_key n = n.id

-- A foreign key that holds `k`.
abbrev pub refers : Option ℕ → ℕ → Bool
refers none k = false
refers (some i) k = i == k

-- Python's truth of a text or `None`.
abbrev pub truthy : Option String → Bool
truthy none = false
truthy (some s) = not (str_eq s "")

-- `FarmJob.objects.get(pk=k)`
unfoldable pub get_job : ℕ → Action Job
get_job k w = or_raise (find job_key k w.jobs) does_not_exist w

-- `FarmNode.objects.get(pk=k)`
unfoldable pub get_node : ℕ → Action Node
get_node k w = or_raise (find node_key k w.nodes) does_not_exist w

-- `job.save()` of a job that has its key
unfoldable pub save_job : Job → Action ⊤
save_job j = modify λ w. record w { jobs = save job_key j w.jobs }

-- `FarmJob(…).save()` of a new job: it gets the next key
unfoldable pub create_job : Job → Action Job
create_job j w =
    let j' = record j { id = w.next_job } in
    (ok j', record w { jobs = w.jobs ++ j' ∷ []; next_job = w.next_job + 1 })

-- `FarmJob.objects.filter(test).update(change)`
unfoldable pub update_jobs : (Job → Bool) → (Job → Job) → Action ⊤
update_jobs test change = modify λ w. record w { jobs = update_where test change w.jobs }

module _ (env : Env) where
  -- The stamp of `aws_instance_state` as `save()` leaves it.
  unfoldable pub stamp_state : Node → Option Node → Node
  stamp_state n none = n
  stamp_state n (some old) = record n {
    aws_instance_state_changed =
        env.monitor old.aws_instance_state n.aws_instance_state n.aws_instance_state_changed
          env.now;
  }

  -- `node.save()` of a node that has its key
  unfoldable pub save_node : Node → Action ⊤
  save_node n w = elim n.aws_instance_state [
    | none ↦ (err integrity_error, w)
    | some _ ↦ (
      ok tt,
      record w { nodes = save node_key (stamp_state n (find node_key n.id w.nodes)) w.nodes },
    )
  ]

  -- `FarmNode(…).save()` of a new node
  unfoldable pub create_node : Node → Action Node
  create_node n w = elim n.aws_instance_state [
    | none ↦ (err integrity_error, w)
    | some _ ↦
        let n' = record n {
          id = w.next_node;
          last_seen = env.now;
          last_job_activity = some env.now;
        } in
        (ok n', record w { nodes = w.nodes ++ n' ∷ []; next_node = w.next_node + 1 })
  ]

  -- `delete()` of the jobs with the given keys: what the cascade collects goes, and with it the
  -- rows of the tables that refer to it.
  unfoldable pub delete_jobs : List ℕ → Action ⊤
  delete_jobs keys = modify λ w.
      let gone = env.collect w.jobs keys in
      record w {
        jobs = select (λ j. not (contains gone j.id)) w.jobs;
        dependencies =
            select (λ (i, k). not (contains gone i) && not (contains gone k)) w.dependencies;
        job_tags = select (λ (i, _). not (contains gone i)) w.job_tags;
      }

  -- A node as `FarmNode(machine_name=…)` makes it, with the defaults of the fields.
  unfoldable pub new_node : String → String → Node
  new_node ip name = record {
    id = 0;
    ip_address = ip;
    machine_name = name;
    last_seen = env.now;
    last_job_activity = none;
    code_version = pos 1;
    git_version = none;
    req_restart = false;
    active = true;
    system = none;
    system_bits = none;
    cpu_brand = none;
    cpu_cores = none;
    gpu_count = none;
    cpu_percent = "0.0";
    virt_percent = "0.0";
    os_version = none;
    status = "offline";
    group = none;
    aws_instance_id = none;
    aws_instance_region = none;
    aws_instance_state = some "none";
    aws_instance_state_changed = env.now;
    aws_auto_shutdown = true;
  }
