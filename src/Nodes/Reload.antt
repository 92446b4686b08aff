-- ===== src/Nodes/Reload.antt =====
-- A machine that is asked to restart gets no new job.
use ava_capture.Base.{
  ℕ, String, ◌≡◌, refl, ◌∙◌, ap, subst, sym, true, not, Option, none, some, List, ◌==◌,
  if◌then◌else◌,
}
use ava_capture.Base.Int.{pos}
use ava_capture.Base.Table.{find, save, find-save}
use ava_capture.Farm.{
  Env, Farm, Node, User, node_key, ok, get_node, get_node-found, save_node, stamp_state,
  node_has_write_access, pure, >>=-ok, Result, ◌>>=◌, Action,
}
use ava_capture.Scheduler.{Offer, schedule}
use ava_capture.Nodes.{ask, reload, post_reload_client}

-- The scheduler does nothing for a machine whose flag is set.
schedule-asked :
    (env : Env) (o : Offer) (w : Farm) → o.node.req_restart ≡ true → schedule env o w ≡ (ok tt, w)
unfolding schedule
schedule-asked env o w asked = rw asked refl

-- What a reload leaves: the machine has a new row, no other row has changed, and the scheduler
-- leaves every farm alone that it is called on for this row.
abbrev pub Asked : Env → Node → List Node → Result ℕ × Farm → Type 0
Asked env n nodes (r, w') =
    (r ≡ ok 200)
    × ((m : Node) × ((k : ℕ)
          → find node_key k w'.nodes ≡ (if n.id == k then some m else find node_key k nodes))
        × (m.machine_name ≡ n.machine_name)
        × ((o : Offer) (v : Farm) → o.node ≡ m → schedule env o v ≡ (ok tt, v)))

stamp_kept :
    (env : Env) (n : Node) (old : Option Node)
    → ((stamp_state env n old).req_restart ≡ n.req_restart)
      × ((stamp_state env n old).machine_name ≡ n.machine_name)
      × ((stamp_state env n old).id ≡ n.id)
unfolding stamp_state
stamp_kept env n none = (refl, refl, refl)
stamp_kept env n (some old) = (refl, refl, refl)

module _ (env : Env) (w : Farm) (n : Node) (state : String)
    (given_state : n.aws_instance_state ≡ some state) where
  stamped : Node
  stamped = stamp_state env (ask n) (find node_key n.id w.nodes)

  after : Farm
  after = record w { nodes = save node_key stamped w.nodes }

  kept :
      (stamped.req_restart ≡ true) × (stamped.machine_name ≡ n.machine_name) × (stamped.id ≡ n.id)
  unfolding stamped
  kept = stamp_kept env (ask n) (find node_key n.id w.nodes)

  save_node-ok : save_node env (ask n) w ≡ (ok tt, after)
  unfolding save_node after stamped
  save_node-ok = rw given_state refl

  reload-Asked : Asked env n w.nodes (reload env n w)
  unfolding reload after
  reload-Asked =
      subst (Asked env n w.nodes)
        (sym (>>=-ok (save_node env (ask n)) (λ _. pure 200) w save_node-ok))
        (
          refl,
          (
            stamped,
            (λ k.
                find-save node_key k stamped w.nodes
                ∙ ap (λ i. if i == k then some stamped else find node_key k w.nodes) kept.2),
            kept.1,
            λ o v e. schedule-asked env o v (ap (λ (m : Node). m.req_restart) e ∙ kept.0),
          ),
        )

-- A superuser's request to reload a stored machine answers 200 and changes the row of that machine
-- alone; on any farm, the scheduler then does nothing for it. The state of the machine's instance
-- is not null, as the column demands.
pub post_reload_client-Asked :
    (env : Env) (user : User) (w : Farm) (k : ℕ) (n : Node) (state : String)
    → user.is_superuser ≡ true
    → find node_key k w.nodes ≡ some n
    → n.aws_instance_state ≡ some state
    → Asked env n w.nodes (post_reload_client env user (some (pos k)) w)
unfolding post_reload_client
post_reload_client-Asked env user w k n state super there given_state =
    subst (Asked env n w.nodes) (sym steps) (reload-Asked env w n state given_state)
  where
    next : Node → Action ℕ
    next i = if not (node_has_write_access user) then pure 403 else reload env i

    steps : (get_node k >>= next) w ≡ reload env n w
    steps = >>=-ok (get_node k) next w (get_node-found k n w there) ∙ rw super refl
