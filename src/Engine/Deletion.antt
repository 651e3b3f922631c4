-- ===== src/Engine/Deletion.antt =====
-- The deletion of nodes and edges by `apply` (core-rs/src/engine.rs).
use pgress.Prelude.{ℕ, Bool, false, ◌||◌, List, [], ◌∷◌, Option, none, some, if◌then◌else◌, nat_eq}
use pgress.Dims.{identity, dependency}
use pgress.Graph
use pgress.Graph.{Graph, Edge, add_node, node, update_node, add_edge, edge, dangling_edges}
use pgress.Deps
use pgress.Deps.{
  DepRegistry, subscribe, subscribe_with_meta_indexed, unsubscribe, set_mode, mode_of, subs_vec,
  add_dep_to_counter, remove_dep_from_counter, set_compiled_label,
}
use pgress.Values.{get_value, dealloc}
use pgress.Partition.{is_remote}
use pgress.Region.{invalidate_for_node}
use pgress.Engine.{Engine, dpo_violation, Reply, on_graph, on_deps, on_values, on_regions, log}
use pgress.Engine.Operations.{fail_with, finish}

-- `DelNode`: the edges at the node, one after the other.
abbrev pub edge_is_remote : Option Edge → Bool
edge_is_remote none = false
edge_is_remote (some x) = is_remote x.dep

unfoldable pub some_remote : List ℕ → Graph → Bool
unfolding edge
some_remote [] g = false
some_remote (id ∷ ids) g = edge_is_remote (edge id g) || some_remote ids g

-- The contribution of the edge to the counter goes first, then the subscription.
unfoldable pub unlink : Edge → Engine → Engine
unfolding remove_dep_from_counter unsubscribe get_value
unlink x e =
    on_deps
      (λ deps.
        unsubscribe x.src x.tgt
          (remove_dep_from_counter x.tgt (get_value x.src e.world.values) deps))
      e

abbrev pub drop_edge : ℕ → Option Edge → Engine → Engine
drop_edge id none e = e
drop_edge id (some x) e = unlink x (on_graph (Graph.remove_edge id) e)

unfoldable pub drop_edges : List ℕ → Engine → Engine
unfolding edge unlink
drop_edges [] e = e
drop_edges (id ∷ ids) e = drop_edges ids (drop_edge id (edge id e.world.graph) e)

unfoldable pub delete_node : ℕ → Engine → Reply × Engine
unfolding dangling_edges some_remote drop_edges dealloc invalidate_for_node log
delete_node id e =
    let dangling = dangling_edges id e.world.graph in
    let e1 = on_graph (Graph.remove_node id) (drop_edges dangling e) in
    let e2 = on_values (dealloc id) (on_deps (Deps.remove_node id) e1) in
    if some_remote dangling e.world.graph
    then fail_with
        (dpo_violation id
          "node has remote-dep edges; deletion would violate interface preservation")
        e
    else finish (log "DelNode" (some id) identity (on_regions (invalidate_for_node id) e2))

abbrev pub delete_found : ℕ → Option Edge → Engine → Reply × Engine
delete_found id none e = finish e
delete_found id (some x) e =
    if is_remote x.dep
    then fail_with
        (dpo_violation id
          "remote-dep edge cannot be deleted locally; partition boundary is preserved")
        e
    else finish (
        log "DelEdge" (some id) dependency (
          unlink x (
            on_regions (λ c. invalidate_for_node x.tgt (invalidate_for_node x.src c))
              (on_graph (Graph.remove_edge id) e))))

unfoldable pub delete_edge : ℕ → Engine → Reply × Engine
unfolding edge unlink invalidate_for_node log
delete_edge id e = delete_found id (edge id e.world.graph) e
