-- ===== src/Engine/Apply.antt =====
-- `apply` of core-rs/src/engine.rs: the other operations, and the dispatch over all of them.
use mathlib.Core.Option
use pgress.Prelude.{
  ℕ, List, [], ◌∷◌, Option, none, some, eqb, if◌then◌else◌, Map, get, insert, modify, nat_eq,
}
use pgress.Prelude.Sorting.{sort}
use pgress.Ternary.{T, same}
use pgress.Dims.{identity, egraph}
use pgress.Node.{Node}
use pgress.Deps.{set_compiled_label}
use pgress.Deps.Epochs.{max_epoch_for_nodes}
use pgress.Partition.{register, compile_label, PartitionDecl, LatticeClass, CausalScope, EdgeLabel}
use pgress.Region.{
  RegionBoundary, dep_closure, explicit_set, partition_scoped, StabilityContract, CompilePolicy,
  eager, lazy, never, CompiledRegion, insert_region,
}
use pgress.Isa.{
  IsaOp, node_create, edge_connect, subscribe_op, set_value_op, propagate, del_node, del_edge,
  demand_op, set_mode_op, reflect_op, stabilize_op, partition_create, partition_bind,
  set_partition_authority, set_edge_label, set_stabilization_config, set_execution_policy,
  region_declare,
}
use pgress.Egraph.Stabilize.{Saturation}
use pgress.Engine.{Engine, Reply, on_deps, on_regions, log}
use pgress.Engine.Compile.{bfs_dep_closure, compile_region}
use pgress.Engine.Settle.{run_stabilize, recompile_edges_for_node}
use pgress.Engine.Operations.{
  create_node, connect_edge, subscribe_nodes, set_node_value, propagate_node, demand_node,
  reflect_node, set_node_mode, finish,
}
use pgress.Engine.Deletion.{delete_node, delete_edge}

-- The ids of the nodes that are zero.
abbrev pub zero_ids : Map ℕ Node → List ℕ
zero_ids [] = []
zero_ids ((id, n) ∷ nodes) = if same n.value T.zero then id ∷ zero_ids nodes else zero_ids nodes

abbrev pub seeds_of : Option (List ℕ) → Engine → List ℕ
seeds_of none e = sort (zero_ids e.world.graph.nodes)
seeds_of (some region) e = sort region

abbrev pub log_stabilize : Engine → Reply × Engine
log_stabilize e = finish (log "Stabilize" none egraph e)

unfoldable pub stabilize_nodes_of : Saturation → Option (List ℕ) → Engine → Option (Reply × Engine)
unfolding run_stabilize log sort
stabilize_nodes_of saturate region e =
    Option.map log_stabilize (run_stabilize saturate (seeds_of region e) e)

unfoldable pub create_partition : PartitionDecl → Engine → Engine
unfolding register log
create_partition decl e =
    log "PartitionCreate" none identity
      (record e { partition_registry = register decl e.partition_registry })

unfoldable pub bind_partition : ℕ → ℕ → Engine → Engine
unfolding recompile_edges_for_node log insert
bind_partition id partition e = log "PartitionBind" (some id) identity (
    recompile_edges_for_node id
      (record e { node_partitions = insert id partition e.node_partitions }))

unfoldable pub set_authority : ℕ → LatticeClass → CausalScope → Engine → Engine
unfolding log modify
set_authority partition lattice_class causal_domain e =
    log "SetPartitionAuthority" none identity (record e {
      partition_registry =
          modify partition
            (λ decl. record decl { lattice_class = lattice_class; causal_domain = causal_domain })
            e.partition_registry;
    })

unfoldable pub label_edge : ℕ → ℕ → EdgeLabel → Engine → Engine
unfolding compile_label set_compiled_label log get
label_edge source target label e =
    let compiled = compile_label label (get source e.node_partitions) e.partition_registry in
    log "SetEdgeLabel" none identity (on_deps (set_compiled_label source target compiled) e)

abbrev pub bound_to : ℕ → Map ℕ ℕ → List ℕ
bound_to partition [] = []
bound_to partition ((id, p) ∷ m) =
    if eqb p partition then id ∷ bound_to partition m else bound_to partition m

-- `none` only if the walk of the closure ran out of its fuel.
abbrev pub region_members : ℕ → RegionBoundary → Engine → Option (List ℕ)
region_members root (dep_closure max_depth) e = bfs_dep_closure root max_depth e.world.deps
region_members root (explicit_set members) e = some members
region_members root (partition_scoped partition) e = some (bound_to partition e.node_partitions)

abbrev pub keep_region : ℕ → StabilityContract → Option CompiledRegion → Engine → Engine
keep_region root stability none e = e
keep_region root stability (some region) e = on_regions (insert_region root region stability) e

abbrev pub compile_now : ℕ → StabilityContract → CompilePolicy → List ℕ → Engine → Engine
compile_now root stability lazy members e = e
compile_now root stability never members e = e
compile_now root stability eager members e =
    keep_region root stability
      (compile_region members e.world.graph e.world.deps e.world.values
        (max_epoch_for_nodes members e.world.deps))
      e

abbrev pub declare_with : ℕ → StabilityContract → CompilePolicy → Engine → List ℕ → Engine
declare_with root stability compile e members =
    let e1 = on_regions (λ c. record c { contracts = insert root stability c.contracts }) e in
    log "RegionDeclare" (some root) identity (compile_now root stability compile members e1)

unfoldable pub declare_region :
    ℕ → RegionBoundary → StabilityContract → CompilePolicy → Engine → Option Engine
unfolding bfs_dep_closure compile_region insert_region max_epoch_for_nodes insert log
declare_region root boundary stability compile e =
    Option.map (declare_with root stability compile e) (region_members root boundary e)

module _ (saturate : Saturation) (rounds : ℕ) where
  unfoldable pub dispatch : IsaOp → Engine → Option (Reply × Engine)
  unfolding create_node connect_edge subscribe_nodes set_node_value propagate_node delete_node
      delete_edge demand_node set_node_mode reflect_node stabilize_nodes_of create_partition
      bind_partition set_authority label_edge declare_region
  dispatch (node_create id typ rule attrs) e = some (finish (create_node id typ rule attrs e))
  dispatch (edge_connect id typ src tgt dep) e = some (connect_edge id typ src tgt dep e)
  dispatch (subscribe_op source subscriber) e = some (finish (subscribe_nodes source subscriber e))
  dispatch (set_value_op id val) e = set_node_value saturate rounds id val e
  dispatch (propagate id) e = propagate_node saturate rounds id e
  dispatch (del_node id) e = some (delete_node id e)
  dispatch (del_edge id) e = some (delete_edge id e)
  dispatch (demand_op id) e = demand_node saturate rounds id e
  dispatch (set_mode_op id mode) e = some (set_node_mode id mode e)
  dispatch (reflect_op id) e = reflect_node saturate rounds id e
  dispatch (stabilize_op region) e = stabilize_nodes_of saturate region e
  dispatch (partition_create id authority_root lattice_class causal_domain) e = some (
      finish (
        create_partition
          (record {
            id = id;
            authority_root = authority_root;
            lattice_class = lattice_class;
            causal_domain = causal_domain;
          })
          e))
  dispatch (partition_bind id partition) e = some (finish (bind_partition id partition e))
  dispatch (set_partition_authority partition lattice_class causal_domain) e =
      some (finish (set_authority partition lattice_class causal_domain e))
  dispatch (set_edge_label source target label) e = some (finish (label_edge source target label e))
  dispatch (set_stabilization_config id config) e = some (
      finish (
        log "SetStabilizationConfig" (some id) identity
          (record e { node_stabilization = insert id config e.node_stabilization })))
  dispatch (set_execution_policy id policy) e = some (
      finish (
        log "SetExecutionPolicy" (some id) identity
          (record e { node_execution = insert id policy e.node_execution })))
  dispatch (region_declare root boundary stability compile) e =
      Option.map finish (declare_region root boundary stability compile e)

  -- The events of the last call are cleared first.
  unfoldable pub apply : IsaOp → Engine → Option (Reply × Engine)
  unfolding dispatch
  apply op e = dispatch op (record e { prop = record e.prop { events = [] } })
