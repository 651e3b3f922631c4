-- ===== src/Examples/Flow.antt =====
-- A network of an input node and a meet of it, drained.
use pgress.Prelude.{
  ℕ, ◌≡◌, refl, subst, ◌<◌, ◌+◌, ◌^◌, arith, [], ◌∷◌, length, none, some, some-inj, get, insert,
  nat_eq, pair_eq, entry,
}
use pgress.Ternary.{neg, pos}
use pgress.Time.{origin}
use pgress.Prelude.Sorting.{sort}
use pgress.Graph.{Graph, empty, add_node, node}
use pgress.Node.{eval, Node, fresh_node, input, computed, meet_all_of, eager}
use pgress.Deps.{
  DepRegistry, subscribe_with_meta_indexed, dep_counter, bump_epoch, ordered_dep_indices_of,
  meta_of,
}
use pgress.Deps.Window.{default_meta}
use pgress.Deps.Counters.{DepCounters, Counts, no_counts, add_value}
use pgress.Values.{
  ValueStore, alloc, set_value, get_value, dense_index, get_by_dense, set_by_dense, grow, write_bit,
}
use pgress.Values.Slots.{IsStore, alloc-IsStore, set_value-IsStore}
use pgress.Deps
use pgress.Values
use pgress.Propagate.{World, no_stats, push}
use pgress.Propagate.Offer.{Env, start, offer}
use pgress.Propagate.Step.{step_push, push_by_scan, push_collected, dep_values}
use mathlib.Core.Option.{get_or}
use pgress.Propagate.Written.{base, settled, push_collected-outcome, topology}
use pgress.Propagate.Shortcut.{step_push-push_by_scan}
use pgress.Propagate.Coherent.{IsCoherent, drain-IsCoherent}
use pgress.Propagate.Identity.{Kept, drain-Kept}
use pgress.Propagate.Ends.{drain-more_steps}
use pgress.Propagate.Delivered.{Delivered}
use pgress.Propagate.Once.{offer-once}
use pgress.Propagate.Drain.{Config, PropEngine, PropError, drain, drain_steps, handle, is_handled}
use pgress.Propagate.Drain
use pgress.Examples.Store.{new-IsStore}

abbrev source : Node
source = record (fresh_node 1 "in" input) { value = pos; version = 1 }

abbrev gate : Node
gate = fresh_node 2 "and" (computed meet_all_of)

abbrev graph : Graph
graph = add_node gate (add_node source empty)

abbrev registry : DepRegistry
registry = record (subscribe_with_meta_indexed 1 2 0 default_meta Deps.new) {
  dep_counters = (2, add_value pos no_counts) ∷ [];
}

abbrev fresh_store : ValueStore
fresh_store = (alloc 2 (alloc 1 Values.new).0).0

abbrev store : ValueStore
store = set_value 1 pos fresh_store

one_alloc_small : length (alloc 1 Values.new).0.cache < 2 ^ 32
unfolding alloc grow
one_alloc_small = omega arith

store-IsStore : IsStore store
store-IsStore = set_value-IsStore 1 pos fresh_store (
    alloc-IsStore 2 (alloc 1 Values.new).0 one_alloc_small
      (alloc-IsStore 1 Values.new (omega arith) new-IsStore))

abbrev network : World
network = record { graph = graph; deps = registry; values = store; stats = no_stats }

network_mirror :
    (j : ℕ) (n : Node) (d : ℕ)
    → node j graph ≡ some n
    → dense_index j store ≡ some d
    → get_value j store ≡ n.value
unfolding node add_node insert get get_value get_by_dense dense_index alloc grow set_value
    set_by_dense
network_mirror j n d e f = ground arith

network-IsCoherent : IsCoherent graph store
network-IsCoherent = record { store = store-IsStore; mirror = network_mirror }

abbrev env : Env
env = record { now = record origin { at_attribute = 1 }; auth = none; demanded = [] }

abbrev config : Config
config = record { now = record origin { at_attribute = 1 }; auth = none; compiled_handled = [] }

abbrev engine : PropEngine
engine = Drain.enqueue (push 2) Drain.new

network-Counts :
    (ctrs : DepCounters) → dep_counter 2 registry ≡ some ctrs → Counts ctrs (dep_values 2 network)
unfolding dep_counter get add_value dep_values ordered_dep_indices_of subscribe_with_meta_indexed
    entry insert bump_epoch alloc grow set_value set_by_dense get_by_dense
network-Counts ctrs e =
    subst (λ c. Counts c (pos ∷ [])) (some-inj e)
      (record { negs = refl; zeros = refl; poss = refl })

step_push_example : step_push env 2 network ≡ push_by_scan env 2 meet_all_of neg network
unfolding add_node insert get node
step_push_example = step_push-push_by_scan env 2 gate meet_all_of network refl refl network-Counts

one_pos-Counts : Counts (add_value pos no_counts) (pos ∷ [])
unfolding add_value
one_pos-Counts = record { negs = refl; zeros = refl; poss = refl }

push_collected_example :
    base (push_collected env 2 meet_all_of neg eager (1 ∷ []) (pos ∷ []) network).1.world
    ≡ settled 2 neg (get_or (eval meet_all_of (pos ∷ [])) neg) (base network)
push_collected_example =
    push_collected-outcome env 2 meet_all_of neg eager (1 ∷ []) (pos ∷ []) network

drain-IsCoherent_example :
    IsCoherent (drain config 8 engine network).2.graph (drain config 8 engine network).2.values
drain-IsCoherent_example = drain-IsCoherent config 8 engine network network-IsCoherent

drain-Kept_example :
    Kept graph
      (topology registry)
      (drain config 8 engine network).2.graph
      (topology (drain config 8 engine network).2.deps)
drain-Kept_example = drain-Kept config 8 engine network

drain_ends_well : (drain config 8 engine network).0 ≡ none
unfolding drain drain_steps handle is_handled step_push node add_node insert get Deps.mode_of
    subscribe_with_meta_indexed dep_counter ordered_dep_indices_of add_value Deps.subs_vec sort
drain_ends_well = refl

drain-more_steps_example : drain config (8 + 3) engine network ≡ drain config 8 engine network
drain-more_steps_example = drain-more_steps config 8 3 engine network drain_ends_well

linked_meta : meta_of 1 2 registry ≡ some default_meta
unfolding meta_of get subscribe_with_meta_indexed insert entry bump_epoch
linked_meta = refl

offer-once_example :
    (offer env 1 2 (offer env 1 2 (start network))).work ≡ (offer env 1 2 (start network)).work
offer-once_example = offer-once env 1 2 default_meta (start network) linked_meta
