-- ===== src/Propagate/Step.antt =====
-- `step_push` and `step_demand` of propagate.rs. The shortcut over the counters is `push_aggregate`, the
-- path that reads the dependency values `push_collected`. The prefetch has no effect on the state.
use mathlib.Core.Option.{get_or}
use mathlib.Core.Option
use pgress.Prelude.{
  ℕ, Bool, true, false, not, ◌&&◌, List, [], ◌∷◌, ◌++◌, map, Option, none, some, eqb, ltb,
  if◌then◌else◌, length,
}
use pgress.Prelude.Sorting.{sort}
use pgress.Ternary.{
  T, neg, pos, same, is_pending, PropState, ready, pending, conflicted, propagation_state,
}
use pgress.Graph.{node}
use pgress.Node.{
  Node, NodeKind, input, computed, ComputeRule, meet_all_of, join_any_of, eval, ExecMode, eager,
  lazy, stabilizing, same_mode,
}
use pgress.Deps.{deps_of, subs_vec, ordered_deps_of, ordered_dep_indices_of, mode_of, dep_counter}
use pgress.Deps.Counters.{DepCounters, total, eval_aggregate}
use pgress.Values.{get_by_dense}
use pgress.Propagate.{
  World, Batch, emit, enqueue, PropEvent, bochvar_infected, demand_fired, stabilize_queued,
  WorkItem, push, demand, stabilize,
}
use pgress.Propagate.Offer.{
  Env, start, materialize, offer_all, recount_all, recount_and_offer, infect_subs,
}

-- The ready branch, which both paths have word for word.
unfoldable pub push_ready : Env → ℕ → T → T → Batch → Batch
unfolding materialize recount_and_offer
push_ready env id old new b =
    let b' = materialize id old new b in
    if not (same new old)
    then recount_and_offer env id (subs_vec id b'.world.deps) old new b'
    else b

abbrev pub aggregate_branch : Env → ℕ → T → ExecMode → T → World → Option T × Batch
aggregate_branch env id old mode neg w = (none, start w)
aggregate_branch env id old mode T.zero w =
    let b = emit (bochvar_infected id none) (start w) in
    let b' = (if not (same T.zero old) then materialize id old T.zero b else b) in
    (some T.zero, infect_subs env id mode (subs_vec id b'.world.deps) old T.zero b')
aggregate_branch env id old mode pos w = (some pos, push_ready env id old pos (start w))

unfoldable pub push_aggregate : Env → ℕ → T → ExecMode → DepCounters → World → Option T × Batch
unfolding eval_aggregate materialize infect_subs push_ready
push_aggregate env id old mode ctrs w = aggregate_branch env id old mode (eval_aggregate ctrs) w

-- The end of the conflicted branch, by the mode of the node.
abbrev pub spread : Env → ℕ → ExecMode → List ℕ → Batch → Batch
spread env id stabilizing dep_ids b =
    let region = dep_ids ++ id ∷ [] in emit (stabilize_queued region) (enqueue (stabilize region) b)
spread env id lazy dep_ids b = b
spread env id eager dep_ids b = offer_all env id (subs_vec id b.world.deps) b

unfoldable pub infect : ℕ → T → World → Batch
unfolding materialize recount_all
infect id old w =
    let b = emit (bochvar_infected id none) (start w) in
    let b' = materialize id old T.zero b in
    if not (same T.zero old) then recount_all (subs_vec id b'.world.deps) old T.zero b' else b

abbrev pub collected_branch :
    Env → ℕ → ComputeRule → T → ExecMode → List ℕ → List T → PropState → World → Option T × Batch
collected_branch env id rule old mode dep_ids dep_vals ready w =
    let new = get_or (eval rule dep_vals) neg in (some new, push_ready env id old new (start w))
collected_branch env id rule old mode dep_ids dep_vals pending w = (none, start w)
collected_branch env id rule old mode dep_ids dep_vals conflicted w =
    (some T.zero, spread env id mode dep_ids (infect id old w))

unfoldable pub push_collected :
    Env → ℕ → ComputeRule → T → ExecMode → List ℕ → List T → World → Option T × Batch
unfolding eval push_ready infect offer_all propagation_state
push_collected env id rule old mode dep_ids dep_vals w =
    collected_branch env id rule old mode dep_ids dep_vals (propagation_state dep_vals) w

abbrev pub is_empty : List ℕ → Bool
is_empty [] = true
is_empty (x ∷ xs) = false

-- The values by dense index if the node has any, and otherwise by node id.
unfoldable pub dep_values : ℕ → World → List T
unfolding get_by_dense
dep_values id w =
    let indices = ordered_dep_indices_of id w.deps in
    if not (is_empty indices)
    then map (λ i. get_by_dense i w.values) indices
    else map (λ d. get_or (Option.map (λ n. Node.value n) (node d w.graph)) neg)
        (ordered_deps_of id w.deps)

unfoldable pub n_deps : ℕ → World → ℕ
n_deps id w =
    let indices = ordered_dep_indices_of id w.deps in
    if not (is_empty indices) then length indices else length (ordered_deps_of id w.deps)

abbrev pub is_aggregate : ComputeRule → Bool
is_aggregate meet_all_of = true
is_aggregate join_any_of = true
is_aggregate _ = false

-- The step of a node with a rule that reads every dependency value.
abbrev pub push_by_scan : Env → ℕ → ComputeRule → T → World → Option T × Batch
push_by_scan env id rule old w =
    push_collected env id rule old (mode_of id w.deps) (ordered_deps_of id w.deps) (dep_values id w)
      w

-- The counters, where the shortcut may read them.
abbrev pub shortcut : ℕ → ComputeRule → World → Option DepCounters
shortcut id rule w =
    if is_aggregate rule && not (same_mode (mode_of id w.deps) stabilizing)
    then elim (dep_counter id w.deps) [
      | none ↦ none
      | some ctrs ↦
          if ltb 0 (n_deps id w) && eqb (total ctrs) (n_deps id w) then some ctrs else none
    ]
    else none

abbrev pub push_rule : Option DepCounters → Env → ℕ → ComputeRule → T → World → Option T × Batch
push_rule none env id rule old w = push_by_scan env id rule old w
push_rule (some ctrs) env id rule old w = push_aggregate env id old (mode_of id w.deps) ctrs w

abbrev pub push_kind : NodeKind → Env → ℕ → T → World → Option T × Batch
push_kind input env id old w = (none, start w)
push_kind (computed rule) env id old w = push_rule (shortcut id rule w) env id rule old w

abbrev pub push_node : Option Node → Env → ℕ → World → Option T × Batch
push_node none env id w = (none, start w)
push_node (some n) env id w = push_kind n.kind env id n.value w

unfoldable pub step_push : Env → ℕ → World → Option T × Batch
unfolding push_collected push_aggregate dep_values n_deps total
step_push env id w = push_node (node id w.graph) env id w

-- The demands on the dependencies that are pending.
unfoldable pub demands : List ℕ → World → List WorkItem
demands [] w = []
demands (dep_id ∷ dep_ids) w =
    if is_pending (get_or (Option.map (λ n. Node.value n) (node dep_id w.graph)) neg)
    then demand dep_id ∷ demands dep_ids w
    else demands dep_ids w

unfoldable pub step_demand : ℕ → World → List PropEvent × List WorkItem
unfolding demands
step_demand id w = (demand_fired id ∷ [], demands (sort (deps_of id w.deps)) w ++ push id ∷ [])
