-- ===== src/Engine/Operations.antt =====
-- The operations on nodes and edges of `apply` (core-rs/src/engine.rs) but their deletion. One that drains runs
-- on a number of rounds, as Engine/Settle says. Its result is the reply and the engine afterwards,
-- which after an error is the engine as it stands then.
use mathlib.Core.Option
use pgress.Prelude.{
  ℕ, Bool, true, false, not, [], ◌∷◌, ◌++◌, Option, none, some, length, ltb, if◌then◌else◌, nat_eq,
}
use Prim.Native.String.{String}
use pgress.Ternary.{T, same}
use pgress.Attr.{Attrs}
use pgress.Dims.{identity, dependency, attribute}
use pgress.Node
use pgress.Node.{
  Node, NodeKind, ExecMode, PortKind, eager, same_mode, fresh_node, preferred_mode, reflect,
}
use pgress.Graph.{Edge, add_node, node, update_node, add_edge}
use pgress.Deps.{
  DepRegistry, subscribe, subscribe_with_meta_indexed, set_mode, mode_of, subs_vec,
  add_dep_to_counter,
}
use pgress.Deps.Window.{default_meta}
use pgress.Values
use pgress.Values.{alloc, dense_index, get_value, dealloc, words}
use pgress.Partition.{DepKind, local, remote}
use pgress.Propagate.{value_changed, push, demand}
use pgress.Region.{invalidate_for_node}
use pgress.Egraph.Stabilize.{Saturation}
use pgress.Engine.{
  Engine, EngineError, node_not_found, Reply, done, failed, on_graph, on_deps, on_values,
  on_regions, emit, queue_item, log, notify, mark_slot,
}
use pgress.Engine.Settle.{drain_and_stabilize}

abbrev pub widened : Engine → Engine
widened e =
    if ltb (length e.dirty_slots) (words (length e.world.values.cache))
    then record e {
      dirty_slots = e.dirty_slots ++ 0 ∷ [];
      compiled_handled = e.compiled_handled ++ 0 ∷ [];
    }
    else e

-- The node, its mode and its slot.
unfoldable pub place_node : ℕ → String → NodeKind → Attrs → Engine → Engine
unfolding add_node set_mode alloc
place_node id typ kind attrs e =
    let n : Node = record (fresh_node id typ kind) { attrs = attrs } in
    let e' = on_deps (set_mode id eager) (on_graph (add_node n) e) in
    on_values (λ vs. (alloc id vs).0) e'

unfoldable pub create_node : ℕ → String → NodeKind → Attrs → Engine → Engine
unfolding place_node log
create_node id typ kind attrs e =
    log "NodeCreate" (some id) identity (widened (place_node id typ kind attrs e))

-- The kind of the port that an edge carries.
abbrev pub edge_port : DepKind → Option PortKind
edge_port (local none) = none
edge_port (local (some p)) = some p.kind
edge_port (remote r) = some r.port_kind

-- The mode that a port prefers is taken if the target is still at the default.
abbrev pub infer_mode : Option ExecMode → ℕ → DepRegistry → DepRegistry
infer_mode none tgt deps = deps
infer_mode (some preferred) tgt deps =
    if same_mode (mode_of tgt deps) eager then set_mode tgt preferred deps else deps

abbrev pub preferred_by : Option PortKind → Option ExecMode
preferred_by none = none
preferred_by (some kind) = preferred_mode kind

-- The subscription with the source's slot, or without one, and the counter of the subscriber.
abbrev pub subscribe_at : Option ℕ → ℕ → ℕ → DepRegistry → DepRegistry
subscribe_at none source subscriber deps = subscribe source subscriber deps
subscribe_at (some dense) source subscriber deps =
    subscribe_with_meta_indexed source subscriber dense default_meta deps

unfoldable pub link : ℕ → ℕ → Engine → Engine
unfolding subscribe subscribe_with_meta_indexed add_dep_to_counter dense_index get_value
link source subscriber e =
    on_deps
      (λ deps.
        add_dep_to_counter subscriber (get_value source e.world.values)
          (subscribe_at (dense_index source e.world.values) source subscriber deps))
      e

abbrev pub is_none : {A : Type 0} → Option A → Bool
is_none none = true
is_none (some a) = false

-- `Err(e)` and the engine as it is.
abbrev pub fail_with : EngineError → Engine → Reply × Engine
fail_with error e = (failed error, e)

-- `Ok(std::mem::take(&mut self.prop.events))`.
abbrev pub finish : Engine → Reply × Engine
finish e = (done e.prop.events, record e { prop = record e.prop { events = [] } })

unfoldable pub connect_edge : ℕ → String → ℕ → ℕ → DepKind → Engine → Reply × Engine
unfolding node mode_of set_mode preferred_mode add_edge link invalidate_for_node log
connect_edge id typ src tgt dep e =
    let new_edge : Edge = record {
      id = id;
      typ = typ;
      src = src;
      tgt = tgt;
      dep = dep;
      attrs = [];
    } in
    let e1 =
      on_graph (add_edge new_edge) (on_deps (infer_mode (preferred_by (edge_port dep)) tgt) e) in
    let e2 =
      on_regions (λ c. invalidate_for_node tgt (invalidate_for_node src c)) (link src tgt e1) in
    if is_none (node src e.world.graph)
    then fail_with (node_not_found src) e
    else if is_none (node tgt e.world.graph)
    then fail_with (node_not_found tgt) e
    else finish (log "EdgeConnect" (some id) dependency e2)

unfoldable pub subscribe_nodes : ℕ → ℕ → Engine → Engine
unfolding link log
subscribe_nodes source subscriber e =
    log "Subscribe" (some subscriber) dependency (link source subscriber e)

-- `drain_and_stabilize()?`, then the events.
abbrev pub reply_of : Option EngineError × Engine → Reply × Engine
reply_of (none, e) = finish e
reply_of (some error, e) = fail_with error e

module _ (saturate : Saturation) (rounds : ℕ) where
  abbrev pub drained : Engine → Option (Reply × Engine)
  drained e = Option.map reply_of (drain_and_stabilize saturate rounds e)

  -- The write and its announcement, up to the drain.
  unfoldable pub write_value : ℕ → T → T → Engine → Engine
  unfolding update_node Node.set_value Values.set_value dense_index log subs_vec notify
  write_value id old val e =
      let e1 =
        on_values (Values.set_value id val)
          (on_graph (update_node id (λ n. (Node.set_value val n).0)) e) in
      let e2 = emit (value_changed id old val) (mark_slot (dense_index id e1.world.values) e1) in
      let e3 = log "SetValue" (some id) attribute e2 in
      notify e3.causal_time id old val (subs_vec id e3.world.deps) e3

  abbrev pub set_found : ℕ → T → Option Node → Engine → Option (Reply × Engine)
  set_found id val none e = some (fail_with (node_not_found id) e)
  set_found id val (some n) e =
      if same val n.value then some (done [], e) else drained (write_value id n.value val e)

  unfoldable pub set_node_value : ℕ → T → Engine → Option (Reply × Engine)
  unfolding node write_value drain_and_stabilize
  set_node_value id val e = set_found id val (node id e.world.graph) e

  unfoldable pub propagate_node : ℕ → Engine → Option (Reply × Engine)
  unfolding log drain_and_stabilize
  propagate_node id e = drained (log "Propagate" (some id) attribute (queue_item (push id) e))

  unfoldable pub demand_node : ℕ → Engine → Option (Reply × Engine)
  unfolding log drain_and_stabilize
  demand_node id e = drained (log "Demand" (some id) attribute (queue_item (demand id) e))

  abbrev pub mark_changed : ℕ → T → T → Engine → Engine
  mark_changed id old new e =
      if not (same new old)
      then emit (value_changed id old new) (mark_slot (dense_index id e.world.values) e)
      else e

  -- The reflection and its announcement, up to the drain; the event is logged first.
  unfoldable pub reflect_value : ℕ → Node → Engine → Engine
  unfolding update_node reflect Values.set_value dense_index subs_vec notify
  reflect_value id n e =
      let new = (reflect n).0.value in
      let e1 =
        on_values (Values.set_value id new) (on_graph (update_node id (λ m. (reflect m).0)) e) in
      let e2 = mark_changed id n.value new e1 in
      notify e2.causal_time id n.value new (subs_vec id e2.world.deps) e2

  abbrev pub reflect_found : ℕ → Option Node → Engine → Option (Reply × Engine)
  reflect_found id none e = some (fail_with (node_not_found id) e)
  reflect_found id (some n) e = drained (reflect_value id n e)

  unfoldable pub reflect_node : ℕ → Engine → Option (Reply × Engine)
  unfolding log node reflect_value drain_and_stabilize
  reflect_node id e =
      let e1 = log "Reflect" (some id) attribute e in reflect_found id (node id e1.world.graph) e1

unfoldable pub set_node_mode : ℕ → ExecMode → Engine → Reply × Engine
unfolding node set_mode log
set_node_mode id mode e =
    if is_none (node id e.world.graph)
    then fail_with (node_not_found id) e
    else finish (log "SetMode" (some id) identity (on_deps (set_mode id mode) e))
