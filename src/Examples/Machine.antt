-- ===== src/Examples/Machine.antt =====
-- Runs of the engine on a node or two.
use pgress.Prelude.{
  ℕ, ◌≡◌, ◌⊎◌, refl, true, List, [], ◌∷◌, none, some, get, insert, entry, nat_eq, pair_eq,
}
use pgress.Prelude.Sorting.{sort, insert_sorted, member, add}
use pgress.Node.{input, identity, lazy}
use pgress.Graph.{node}
use pgress.Deps
use pgress.Deps.{
  DepRegistry, subscribe, subscribe_with_meta, bump_epoch, deps_of, subs_of, ordered_dep_indices_of,
}
use pgress.Values
use pgress.Values.{ValueStore, alloc, grow, dense_index}
use pgress.Isa.{set_mode_op, subscribe_op}
use pgress.Engine.{Engine, new_engine, Reply, failed, node_not_found}
use pgress.Engine.Operations.{create_node, subscribe_nodes, finish, set_node_mode}
use pgress.Engine.Apply.{apply, dispatch}
use pgress.Engine.Errors.{is_prop_error, cleared, apply-failed}
use pgress.Engine.Layers.{deletes, apply-Kept}
use pgress.Engine.Compile.{
  compile_region, region_of, Csr, topo_sort, kahn, release, push_rows, push_row, push_col, slots_of,
  bfs_dep_closure,
}
use pgress.Engine.Compiled.{IsParallel, compile_region-IsParallel}
use pgress.Engine.Settle.{run_stabilize}
use pgress.Engine.Ends.{run_stabilize_ends, bfs_dep_closure_ends}
use pgress.Examples.Sections.{analyse}

abbrev engine : Engine
engine = create_node 1 "in" input [] new_engine

mode_fails :
    apply analyse 1 (set_mode_op 9 lazy) new_engine
    ≡ some (failed (node_not_found 9), cleared new_engine)
unfolding apply dispatch set_node_mode node get
mode_fails = refl

apply-failed_example :
    (is_prop_error (node_not_found 9) ≡ true) ⊎ (cleared new_engine ≡ cleared new_engine)
apply-failed_example =
    apply-failed analyse 1 (set_mode_op 9 lazy) new_engine (cleared new_engine) (node_not_found 9)
      refl mode_fails

abbrev subscribed : Reply × Engine
subscribed = finish (subscribe_nodes 1 2 (cleared engine))

subscribe_returns : apply analyse 1 (subscribe_op 1 2) engine ≡ some subscribed
unfolding apply dispatch
subscribe_returns = refl

apply-Kept_example :
    (node 1 subscribed.1.world.graph ≡ node 1 engine.world.graph)
    ⊎ (deletes (subscribe_op 1 2) 1 ≡ true) × (node 1 subscribed.1.world.graph ≡ none)
apply-Kept_example =
    apply-Kept analyse 1 (subscribe_op 1 2) 1 engine subscribed.1 subscribed.0 refl refl
      subscribe_returns

abbrev store : ValueStore
store = (alloc 2 (alloc 1 Values.new).0).0

abbrev registry : DepRegistry
registry = subscribe 1 2 Deps.new

abbrev csr : Csr
csr = record {
  dep_offsets = 0 ∷ 1 ∷ [];
  dep_cols = 0 ∷ [];
  rules = identity ∷ [];
  outputs = 1 ∷ [];
  inputs_seen = 0 ∷ [];
  inputs = 0 ∷ [];
}

region_compiled :
    compile_region (2 ∷ []) (record { nodes = []; edges = [] }) registry store 3
    ≡ some (region_of (2 ∷ []) csr 3)
unfolding compile_region topo_sort kahn release push_rows push_row push_col slots_of alloc grow
    dense_index node get insert entry subscribe subscribe_with_meta bump_epoch deps_of subs_of
    ordered_dep_indices_of sort insert_sorted member add
region_compiled = refl

compile_region_example : IsParallel store (2 ∷ []) (region_of (2 ∷ []) csr 3)
compile_region_example =
    compile_region-IsParallel (2 ∷ []) (record { nodes = []; edges = [] }) registry store 3
      (region_of (2 ∷ []) csr 3) region_compiled

run_stabilize_example : (e' : Engine) × (run_stabilize analyse (1 ∷ []) engine ≡ some e')
run_stabilize_example = run_stabilize_ends analyse (1 ∷ []) engine

bfs_dep_closure_example : (members : List ℕ) × (bfs_dep_closure 2 5 registry ≡ some members)
bfs_dep_closure_example = bfs_dep_closure_ends 2 5 registry
