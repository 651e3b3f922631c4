-- ===== src/Engine/Errors.antt =====
-- What an error of `apply` (core-rs/src/engine.rs) leaves behind.
use Prim.Native.String.{String}
use mathlib.Core.Option
use pgress.Prelude.{
  ◌>>=◌, ℕ, zero, suc, ◌≡◌, ◌⊎◌, refl, subst, inl, inr, Bool, true, false, List, [], ◌∷◌, Option,
  none, some, Bool-cases, Option-cases, nat_eq,
}
use pgress.Ternary.{T, same}
use pgress.Node.{ExecMode}
use pgress.Graph.{node, edge, dangling_edges}
use pgress.Partition.{DepKind, is_remote}
use pgress.Region.{RegionBoundary, StabilityContract, CompilePolicy}
use pgress.Isa.{
  IsaOp, node_create, edge_connect, subscribe_op, set_value_op, propagate, del_node, del_edge,
  demand_op, set_mode_op, reflect_op, stabilize_op, partition_create, partition_bind,
  set_partition_authority, set_edge_label, set_stabilization_config, set_execution_policy,
  region_declare,
}
use pgress.Egraph.Stabilize.{Saturation}
use pgress.Engine.{Engine, EngineError, prop_error, Reply, done, failed, queue_item, log}
use pgress.Dims.{attribute}
use pgress.Propagate.{push, demand}
use pgress.Propagate.Drain.{PropError}
use pgress.Engine.Settle.{
  drain_and_stabilize, drain_rounds, end_round, drain_prop, run_stabilize, queued_seeds, next_round,
  run_stabilize_all, drop_queued,
}
use pgress.Engine.Circuits.{run_dirty}
use pgress.Engine.Operations.{
  connect_edge, is_none, set_node_mode, drained, reply_of, set_node_value, write_value,
  propagate_node, demand_node, finish,
}
use pgress.Engine.Deletion.{some_remote, delete_node, delete_edge}
use pgress.Engine.Apply.{
  region_members, declare_region, seeds_of, stabilize_nodes_of, dispatch, apply,
}

-- Errors of the propagation engine, which only a drain gives.
abbrev pub is_prop_error : EngineError → Bool
is_prop_error (prop_error error) = true
is_prop_error _ = false

abbrev pub reflects : IsaOp → Bool
reflects (reflect_op id) = true
reflects _ = false

-- The engine with the events of the last call cleared.
abbrev pub cleared : Engine → Engine
cleared e = record e { prop = record e.prop { events = [] } }

-- A failure without a drain's error leaves the engine `e`.
abbrev Untouched : Engine → Option (Reply × Engine) → Type 0
Untouched e none = Unit
Untouched e (some (done events, e')) = Unit
Untouched e (some (failed error, e')) = (is_prop_error error ≡ true) ⊎ (e' ≡ e)

connect_edge-Untouched :
    (id src tgt : ℕ) (typ : String) (dep : DepKind) (e : Engine)
    → Untouched e (some (connect_edge id typ src tgt dep e))
unfolding connect_edge
connect_edge-Untouched id src tgt typ dep e = elim (Bool-cases (is_none (node src e.world.graph))) [
  | inl missing ↦ rw missing (inr refl)
  | inr found ↦ rw found (elim (Bool-cases (is_none (node tgt e.world.graph))) [
    | inl missing ↦ rw missing (inr refl)
    | inr both ↦ rw both tt
  ])
]

delete_node-Untouched : (id : ℕ) (e : Engine) → Untouched e (some (delete_node id e))
unfolding delete_node
delete_node-Untouched id e =
    elim (Bool-cases (some_remote (dangling_edges id e.world.graph) e.world.graph)) [
      | inl far ↦ rw far (inr refl)
      | inr near ↦ rw near tt
    ]

delete_edge-Untouched : (id : ℕ) (e : Engine) → Untouched e (some (delete_edge id e))
unfolding delete_edge
delete_edge-Untouched id e = elim (Option-cases (edge id e.world.graph)) [
  | inl gone ↦ rw gone tt
  | inr (x, f) ↦
      rw f (elim (Bool-cases (is_remote x.dep)) [
        | inl far ↦ rw far (inr refl)
        | inr near ↦ rw near tt
      ])
]

set_node_mode-Untouched :
    (id : ℕ) (mode : ExecMode) (e : Engine) → Untouched e (some (set_node_mode id mode e))
unfolding set_node_mode
set_node_mode-Untouched id mode e = elim (Bool-cases (is_none (node id e.world.graph))) [
  | inl missing ↦ rw missing (inr refl)
  | inr found ↦ rw found tt
]

module _ (saturate : Saturation) where
  -- A drain fails with an error of the propagation engine only.
  abbrev PropOnly : Option (Option EngineError × Engine) → Type 0
  PropOnly none = Unit
  PropOnly (some (none, e)) = Unit
  PropOnly (some (some error, e)) = is_prop_error error ≡ true

  then_PropOnly :
      (next : Engine → Option (Option EngineError × Engine)) (o : Option Engine)
      → ((e : Engine) → PropOnly (next e))
      → PropOnly (o >>= next)
  then_PropOnly next none rest = tt
  then_PropOnly next (some e) rest = rest e

  end_round-PropOnly :
      (next : Engine → Option (Option EngineError × Engine)) (p : Option PropError × Engine)
      → ((e : Engine) → PropOnly (next e))
      → PropOnly (end_round saturate next p)
  end_round-PropOnly next (some error, e) rest = refl
  end_round-PropOnly next (none, e) rest = by_seeds (queued_seeds saturate e.prop.events)
    where
      by_seeds : (seeds : List (List ℕ)) → PropOnly (next_round saturate next seeds e)
      by_seeds [] = tt
      by_seeds (seeds ∷ others) =
          then_PropOnly next (run_stabilize_all saturate (seeds ∷ others) (drop_queued saturate e))
            rest

  drain_rounds-PropOnly : (rounds : ℕ) (e : Engine) → PropOnly (drain_rounds saturate rounds e)
  unfolding drain_rounds
  drain_rounds-PropOnly zero e = tt
  drain_rounds-PropOnly (suc rounds) e =
      end_round-PropOnly (drain_rounds saturate rounds) (drain_prop saturate e)
        (λ e'. drain_rounds-PropOnly rounds e')

  reply_of-Untouched :
      (e : Engine) (o : Option (Option EngineError × Engine))
      → PropOnly o
      → Untouched e (Option.map reply_of o)
  reply_of-Untouched e none p = tt
  reply_of-Untouched e (some (none, e')) p = tt
  reply_of-Untouched e (some (some error, e')) p = inl p

  drained-Untouched : (rounds : ℕ) (e e' : Engine) → Untouched e (drained saturate rounds e')
  unfolding drain_and_stabilize
  drained-Untouched rounds e e' =
      reply_of-Untouched e (drain_rounds saturate rounds (run_dirty e'))
        (drain_rounds-PropOnly rounds (run_dirty e'))

  set_node_value-Untouched :
      (rounds id : ℕ) (val : T) (e : Engine) → Untouched e (set_node_value saturate rounds id val e)
  unfolding set_node_value
  set_node_value-Untouched rounds id val e = elim (Option-cases (node id e.world.graph)) [
    | inl gone ↦ rw gone (inr refl)
    | inr (n, f) ↦ rw f (elim (Bool-cases (same val n.value)) [
      | inl kept ↦ rw kept tt
      | inr moved ↦
          rw moved (drained-Untouched rounds e (write_value saturate rounds id n.value val e))
    ])
  ]

  stabilize_nodes_of-Untouched :
      (region : Option (List ℕ)) (e : Engine) → Untouched e (stabilize_nodes_of saturate region e)
  unfolding stabilize_nodes_of
  stabilize_nodes_of-Untouched region e =
      elim (Option-cases (run_stabilize saturate (seeds_of region e) e)) [
        | inl stuck ↦ rw stuck tt
        | inr (e', f) ↦ rw f tt
      ]

  declare_region-Untouched :
      (root : ℕ) (boundary : RegionBoundary) (stability : StabilityContract)
      (compile : CompilePolicy) (e : Engine)
      → Untouched e (Option.map finish (declare_region root boundary stability compile e))
  unfolding declare_region
  declare_region-Untouched root boundary stability compile e =
      elim (Option-cases (region_members root boundary e)) [
        | inl stuck ↦ rw stuck tt
        | inr (members, f) ↦ rw f tt
      ]

  dispatch-Untouched :
      (rounds : ℕ) (op : IsaOp) (e : Engine)
      → reflects op ≡ false
      → Untouched e (dispatch saturate rounds op e)
  unfolding dispatch propagate_node demand_node
  dispatch-Untouched rounds (node_create id typ rule attrs) e other = tt
  dispatch-Untouched rounds (edge_connect id typ src tgt dep) e other =
      connect_edge-Untouched id src tgt typ dep e
  dispatch-Untouched rounds (subscribe_op source subscriber) e other = tt
  dispatch-Untouched rounds (set_value_op id val) e other = set_node_value-Untouched rounds id val e
  dispatch-Untouched rounds (propagate id) e other =
      drained-Untouched rounds e (log "Propagate" (some id) attribute (queue_item (push id) e))
  dispatch-Untouched rounds (del_node id) e other = delete_node-Untouched id e
  dispatch-Untouched rounds (del_edge id) e other = delete_edge-Untouched id e
  dispatch-Untouched rounds (demand_op id) e other =
      drained-Untouched rounds e (log "Demand" (some id) attribute (queue_item (demand id) e))
  dispatch-Untouched rounds (set_mode_op id mode) e other = set_node_mode-Untouched id mode e
  dispatch-Untouched rounds (reflect_op id) e other = cc
  dispatch-Untouched rounds (stabilize_op region) e other = stabilize_nodes_of-Untouched region e
  dispatch-Untouched rounds (partition_create id root lattice_class domain) e other = tt
  dispatch-Untouched rounds (partition_bind id partition) e other = tt
  dispatch-Untouched rounds (set_partition_authority partition lattice_class domain) e other = tt
  dispatch-Untouched rounds (set_edge_label source target label) e other = tt
  dispatch-Untouched rounds (set_stabilization_config id config) e other = tt
  dispatch-Untouched rounds (set_execution_policy id policy) e other = tt
  dispatch-Untouched rounds (region_declare root boundary stability compile) e other =
      declare_region-Untouched root boundary stability compile e

-- When an operation other than `Reflect` fails, either the propagation engine stopped its drain, or
-- nothing has changed but the events of the last call, which are cleared.
pub apply-failed :
    (saturate : Saturation) (rounds : ℕ) (op : IsaOp) (e e' : Engine) (error : EngineError)
    → reflects op ≡ false
    → apply saturate rounds op e ≡ some (failed error, e')
    → (is_prop_error error ≡ true) ⊎ (e' ≡ cleared e)
unfolding apply
apply-failed saturate rounds op e e' error other h =
    subst (Untouched (cleared e)) h (dispatch-Untouched saturate rounds op (cleared e) other)
