-- ===== src/Discover/Machine.antt =====
-- The first half of `post_client_discover`: the row of the client's machine and its tags.
use ava_capture.Base.{
  ℕ, String, ◌-◌, ◌==◌, ltb, if◌then◌else◌, false, not, ◌&&◌, Option, none, some, List, [], ◌∷◌,
  ◌++◌, select, count_where, map,
}
use ava_capture.Base.Int.{pos}
use ava_capture.Farm.{
  Env, Farm, Node, Notice, running, is, Action, pure, Result, ok, gets, when, ◌>>=◌, ◌>>◌, refers,
  truthy, state_is, save_node, create_node, new_node, aws_instance_should_be_stopped,
}
use ava_capture.Aws.{instance_id_from_private_ip, stop_instance}
use ava_capture.Parent.{notify}
use ava_capture.Discover.Report.{ClientReport}

-- `a` where the key is there, else what the field holds.
abbrev pub given {ℓ} : {A : Type ℓ} → Option A → A → A
given none old = old
given (some a) old = a

-- A call of aws.py, whose exceptions are the view's.
abbrev pub lift : {A : Type 0} → Result A → Action A
lift r w = (r, w)

module _ (env : Env) where
  -- The first of the nodes in the order of `FarmNode.Meta`, by machine name.
  unfoldable pub first_by_name : List Node → Option Node
  first_by_name [] = none
  first_by_name (n ∷ ns) = elim (first_by_name ns) [
    | none ↦ some n
    | some m ↦ if env.name_le n.machine_name m.machine_name then some n else some m
  ]

  -- `FarmNode.objects.filter(machine_name__iexact=name)`, and its first node
  unfoldable pub find_machine : String → List Node → Option Node
  unfolding first_by_name
  find_machine name nodes = first_by_name (select (λ n. env.same_name n.machine_name name) nodes)

  unfoldable pub make_sure_node_exists : String → Action Node
  make_sure_node_exists name w = elim (find_machine name w.nodes) [
    | some n ↦ (ok n, w)
    | none ↦ create_node env (new_node env "0.0.0.0" name) w
  ]

  -- The description of the machine: the keys that the report has.
  abbrev pub described : ClientReport → Node → Node
  described r n = record n {
    system = elim r.system [ none ↦ n.system | some s ↦ some s ];
    system_bits = elim r.system_bits [ none ↦ n.system_bits | some s ↦ some s ];
    cpu_brand = elim r.cpu_brand [ none ↦ n.cpu_brand | some s ↦ some s ];
    cpu_cores = elim r.cpu_cores [ none ↦ n.cpu_cores | some s ↦ some s ];
    gpu_count = elim r.cuda_device_count [ none ↦ n.gpu_count | some s ↦ some s ];
    req_restart = if given r.restarted false then false else n.req_restart;
    cpu_percent = given r.cpu_percent n.cpu_percent;
    virt_percent = given r.mem_used n.virt_percent;
    os_version = elim r.os_version [ none ↦ n.os_version | some s ↦ some s ];
  }

  -- What the client says of its code and status, set last.
  abbrev pub stated : ClientReport → String → Node → Node
  stated r status n = record n {
    code_version = given r.code_version (pos 0);
    git_version = some (given r.git_version "");
    status = status;
  }

  -- `update_aws_status`: the instance is looked up by the address.
  unfoldable pub locate : Node → Action Node
  locate n = do
    found ← lift (instance_id_from_private_ip env.ec2 n.ip_address)
    pure (record n {
      aws_instance_id = found.0;
      aws_instance_region = found.1;
      aws_instance_state = found.2;
    })

  -- Otherwise an instance that has been idle is stopped.
  unfoldable pub stop_idle : Node → Action Node
  stop_idle n w =
      (if aws_instance_should_be_stopped env.now n w
          then (do
            nb_aws_running ←
                gets λ w'. count_where (λ m. state_is m.aws_instance_state "running") w'.nodes
            when env.slack_notif_hook
                (notify (Notice.slack_stopping n.machine_name (nb_aws_running - 1)))
            state ← lift (stop_instance env.ec2 n.aws_instance_id n.aws_instance_region)
            pure (record n { aws_instance_state = state }))
          else pure n)
        w

  -- `last_job_activity` of a stored node with a running job.
  unfoldable pub note_activity : Node → Farm → Node
  note_activity n w =
      if ltb 0 (count_where (λ j. is running j.status && refers j.node n.id) w.jobs)
      then record n { last_job_activity = some env.now }
      else n

  -- A machine that has a row.
  unfoldable pub update_known : ClientReport → String → Node → Action Node
  update_known r status n = do
    let seen = record n { ip_address = r.ip_address; last_seen = env.now }
    let described_node = described r seen
    let on_cloud =
        if not (state_is n.aws_instance_state "running")
        then locate described_node
        else stop_idle described_node
    clouded ← on_cloud
    active ← gets (note_activity clouded)
    let final = stated r status active
    save_node env final
    pure final

  -- A new machine. Its `last_job_activity` is stamped by the insertion (`auto_now_add`).
  unfoldable pub create_machine : ClientReport → String → Action Node
  create_machine r status = do
    clouded ← locate (described r (new_node env r.ip_address r.machine_name))
    create_node env (stated r status clouded)

  unfoldable pub update_machine : ClientReport → String → Action Node
  update_machine r status w = elim (find_machine r.machine_name w.nodes) [
    | some n ↦ update_known r status n w
    | none ↦ create_machine r status w
  ]

-- The tags of a node in the database.
abbrev pub tag_names : ℕ → List (ℕ × String) → List String
tag_names k node_tags = map (λ e. e.1) (select (λ e. e.0 == k) node_tags)

-- `node.tags.set(*tags, clear=True)` where the client names its tags; the tags of the node.
unfoldable pub update_tags : Node → Option (List String) → Action (List String)
update_tags n none w = (ok (tag_names n.id w.node_tags), w)
update_tags n (some client_tags) w =
    let tags = client_tags ++ (if truthy n.aws_instance_id then "aws" ∷ [] else []) in
    (
      ok tags,
      record w {
        node_tags = select (λ e. not (e.0 == n.id)) w.node_tags ++ map (λ t. (n.id, t)) tags;
      },
    )
