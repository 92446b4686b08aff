-- ===== src/Nodes.antt =====
-- The requests about machines in website-backend/ava/jobs/views.py: `post_aws_start_instance` and
-- `post_reload_client`.
pub mod Reload
use ava_capture.Base.{
  ⊤, ℕ, String, if◌then◌else◌, Bool, true, false, not, Option, none, some, List, map,
}
use ava_capture.Base.Int.{ℤ, pos, negsuc}
use ava_capture.Farm.{
  Env, Farm, Node, User, Action, pure, modify, when, ◌>>=◌, ◌>>◌, get_node, save_node, truthy,
  node_has_write_access,
}
use ava_capture.Aws.{start_instance}
use ava_capture.Discover.Machine.{lift}

-- `req_restart` on one row, and on every row.
abbrev pub ask : Node → Node
ask n = record n { req_restart = true }

abbrev pub ask_all : List Node → List Node
ask_all nodes = map ask nodes

module _ (env : Env) where
  unfoldable pub start : Node → Action ℕ
  start node =
      if truthy node.aws_instance_id
      then (do
        state ← lift (start_instance env.ec2 node.aws_instance_id node.aws_instance_region)
        when (truthy state) (save_node env (record node { aws_instance_state = state }))
        pure 200)
      else pure 200

  unfoldable pub post_aws_start_instance : User → Option ℕ → Action ℕ
  post_aws_start_instance user none = pure 500
  post_aws_start_instance user (some k) = do
    node ← get_node k
    (if not (node_has_write_access user) then pure 403 else start node)

  unfoldable pub reload : Node → Action ℕ
  reload node = do save_node env (ask node); pure 200

  -- A negative key stands for all machines; there is no check of the user then.
  unfoldable pub post_reload_client : User → Option ℤ → Action ℕ
  post_reload_client user none = pure 500
  post_reload_client user (some (negsuc k)) = do
    modify λ w. record w { nodes = ask_all w.nodes }
    pure 200
  post_reload_client user (some (pos k)) = do
    node ← get_node k
    (if not (node_has_write_access user) then pure 403 else reload node)
