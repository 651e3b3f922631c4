-- ===== src/Engine.antt =====
-- The engine of core-rs/src/engine.rs: its state, the helpers that its operations share, and
-- `set_attr`. The graph, the registry, the value store and the statistics stand in one field, as the
-- propagation engine takes them. The arrival counter and versions are `u64` that wrap.
pub mod Compile
pub mod Circuits
pub mod Settle
pub mod Operations
pub mod Deletion
pub mod Apply
pub mod Errors
pub mod Layers
pub mod Compiled
pub mod Ends
use Prim.Native.String.{String}
use mathlib.Core.Option
use pgress.Prelude.{
  ℕ, ◌+◌, Bool, true, false, ◌&&◌, List, [], ◌∷◌, ◌++◌, Option, none, some, if◌then◌else◌, Map, get,
  nat_eq,
}
use pgress.Prelude.Words.{inc64}
use pgress.Ternary.{T}
use pgress.Attr.{Val, set_attr}
use pgress.Dims.{TimeDim}
use pgress.Time.{ProductTime, origin, advance, EventStamp}
use pgress.Node
use pgress.Node.{Node, eager, same_mode}
use pgress.Node.Policy.{
  StabilizationConfig, ExecutionPolicy, default_stabilization, default_execution,
}
use pgress.Graph
use pgress.Graph.{Graph, node, update_node}
use pgress.Deps
use pgress.Deps.{DepRegistry, meta_of, mode_of, update_last_seen, update_dep_counter}
use pgress.Deps.Window.{DepMeta, should_propagate}
use pgress.Values
use pgress.Values.{dense_index}
use pgress.Partition.{PartitionRegistry, AuthorityMode, advisory, UnboundPolicy, allow, default_for}
use pgress.Propagate.{World, WorkItem, push, PropEvent, no_stats}
use pgress.Propagate.Drain
use pgress.Propagate.Drain.{PropEngine, PropError, enqueue}
use pgress.Egraph.{PortHistory}
use pgress.Region
use pgress.Region.{RegionArtifactCache, mark_dirty_for_input}
use pgress.Region.Run.{raise}

pub record EngineEvent : Type 0 where
  pub op : String
  pub node : Option ℕ
  pub stamp : EventStamp

pub record Engine : Type 0 where
  pub world : World
  pub prop : PropEngine
  pub history : List EngineEvent
  pub max_steps : ℕ
  pub causal_time : ProductTime
  pub arrival_counter : ℕ
  pub port_histories : Map ℕ PortHistory
  pub partition_registry : PartitionRegistry
  pub authority_mode : AuthorityMode
  pub unbound_policy : UnboundPolicy
  pub node_partitions : Map ℕ ℕ
  pub node_stabilization : Map ℕ StabilizationConfig
  pub node_execution : Map ℕ ExecutionPolicy
  pub region_cache : RegionArtifactCache
  pub dirty_slots : List ℕ
  pub compiled_handled : List ℕ

abbrev pub new_engine : Engine
new_engine = record {
  world = record { graph = Graph.empty; deps = Deps.new; values = Values.new; stats = no_stats };
  prop = Drain.new;
  history = [];
  max_steps = 100000;
  causal_time = origin;
  arrival_counter = 0;
  port_histories = [];
  partition_registry = [];
  authority_mode = advisory;
  unbound_policy = allow;
  node_partitions = [];
  node_stabilization = [];
  node_execution = [];
  region_cache = Region.new;
  dirty_slots = [];
  compiled_handled = [];
}

pub data EngineError : Type 0 where
  node_not_found : ℕ → EngineError
  edge_not_found : ℕ → EngineError
  prop_error : PropError → EngineError
  stabilize_failed : String → EngineError
  dpo_violation : ℕ → String → EngineError

-- A result of the engine.
pub data Reply : Type 0 where
  done : List PropEvent → Reply
  failed : EngineError → Reply

abbrev pub on_graph : (Graph → Graph) → Engine → Engine
on_graph f e = record e { world = record e.world { graph = f e.world.graph } }

abbrev pub on_deps : (DepRegistry → DepRegistry) → Engine → Engine
on_deps f e = record e { world = record e.world { deps = f e.world.deps } }

abbrev pub on_values : (Values.ValueStore → Values.ValueStore) → Engine → Engine
on_values f e = record e { world = record e.world { values = f e.world.values } }

abbrev pub on_regions : (RegionArtifactCache → RegionArtifactCache) → Engine → Engine
on_regions f e = record e { region_cache = f e.region_cache }

abbrev pub emit : PropEvent → Engine → Engine
emit event e = record e { prop = record e.prop { events = e.prop.events ++ event ∷ [] } }

abbrev pub queue_item : WorkItem → Engine → Engine
queue_item item e = record e { prop = enqueue item e.prop }

unfoldable pub log : String → Option ℕ → TimeDim → Engine → Engine
unfolding advance
log op id dim e =
    let now = advance dim e.causal_time in
    let arrival = inc64 e.arrival_counter in
    record e {
      causal_time = now;
      arrival_counter = arrival;
      history =
          e.history
          ++ record { op = op; node = id; stamp = record { causal = now; arrival = arrival } } ∷ [];
    }

-- `dep_meta(..).map_or(true, |m| should_propagate(m, &causal))`.
abbrev pub gate : Option DepMeta → ProductTime → Bool
gate none causal = true
gate (some m) causal = should_propagate m causal

-- The push of one subscriber, if its gate is open and its mode is eager.
unfoldable pub offer_sub : ProductTime → ℕ → ℕ → Engine → Engine
unfolding meta_of mode_of update_last_seen should_propagate
offer_sub causal id sub e =
    if gate (meta_of id sub e.world.deps) causal && same_mode (mode_of sub e.world.deps) eager
    then on_deps (update_last_seen id sub causal) (queue_item (push sub) e)
    else e

-- The loop over the subscribers after a write.
unfoldable pub notify : ProductTime → ℕ → T → T → List ℕ → Engine → Engine
unfolding offer_sub update_dep_counter
notify causal id old new [] e = e
notify causal id old new (sub ∷ subs) e =
    notify causal id old new subs
      (offer_sub causal id sub (on_deps (update_dep_counter sub old new) e))

-- The dirty flags that a write to a slot raises.
abbrev pub mark_slot : Option ℕ → Engine → Engine
mark_slot none e = e
mark_slot (some dense) e =
    let e' = on_regions (mark_dirty_for_input dense) e in
    record e' { dirty_slots = raise dense e'.dirty_slots }

-- The write of an attribute, `n.attrs.set(key, val); n.version += 1`.
abbrev pub write_attr : String → Val → Node → Node
write_attr key val n = record n { attrs = set_attr key val n.attrs; version = inc64 n.version }

unfoldable pub set_attr_of : ℕ → String → Val → Engine → Reply × Engine
unfolding node update_node set_attr
set_attr_of id key val e = elim (node id e.world.graph) [
  | none ↦ (failed (node_not_found id), e)
  | some n ↦ (done [], on_graph (update_node id (write_attr key val)) e)
]

abbrev pub set_authority_mode : AuthorityMode → Engine → Engine
set_authority_mode mode e = record e { authority_mode = mode; unbound_policy = default_for mode }

unfoldable pub value_of : ℕ → Engine → Option T
unfolding node
value_of id e = Option.map (λ (n : Node). n.value) (node id e.world.graph)

unfoldable pub version_of : ℕ → Engine → Option ℕ
unfolding node
version_of id e = Option.map (λ (n : Node). n.version) (node id e.world.graph)

abbrev pub partition_of : ℕ → Engine → Option ℕ
partition_of id e = get id e.node_partitions

abbrev pub stabilization_config : ℕ → Engine → StabilizationConfig
stabilization_config id e = Option.get_or (get id e.node_stabilization) default_stabilization

abbrev pub execution_policy : ℕ → Engine → ExecutionPolicy
execution_policy id e = Option.get_or (get id e.node_execution) default_execution
