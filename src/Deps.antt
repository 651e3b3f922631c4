-- ===== src/Deps.antt =====
-- The dependency registry of core-rs/src/deps.rs. A set of ids is a list with `add` and `discard`;
-- `subs_vec` sorts, so its order never shows there. The counters are `u32` and wrap; an epoch is a
-- `u64` and wraps.
pub mod Counters
pub mod Window
pub mod Registry
pub mod Epochs
pub mod Removal
use mathlib.Core.Option.{get_or}
use pgress.Prelude.{
  ℕ, zero, suc, ◌+◌, ◌-◌, Bool, true, false, not, ◌&&◌, ◌||◌, List, [], ◌∷◌, ◌++◌, Option, none,
  some, ltb, eqb, if◌then◌else◌, remove_at, length, Map, get, insert, remove, modify, entry, nat_eq,
  pair_eq,
}
use pgress.Prelude.Words.{inc64, add32}
use pgress.Prelude.Sorting.{sort, add, discard}
use Counters.{DepCounters, no_counts, add_value, remove_value, update}
use Window.{DepMeta, default_meta}
use pgress.Ternary.{T, neg, pos, same}
use pgress.Dims.{TimeDim, identity, attribute, dependency, egraph, boundary, contains}
use pgress.Time.{ProductTime, origin, join, get_dim}
use pgress.Time
use pgress.Time.Frontier.{Frontier}
use pgress.Time.Frontier
use pgress.Node.{ExecMode, eager}
use pgress.Partition.{CompiledEdgeLabel, permissive_default}
use pgress.Sensitivity.{Sensitivity, exact}

pub record DepRegistry : Type 0 where
  pub deps : Map ℕ (List ℕ)
  pub subs : Map ℕ (List ℕ)
  pub modes : Map ℕ ExecMode
  pub ordered_deps : Map ℕ (List ℕ)
  pub ordered_dep_indices : Map ℕ (List ℕ)
  pub dep_meta : Map (ℕ × ℕ) DepMeta
  pub adj_epochs : Map ℕ ℕ
  pub adj_epoch_counter : ℕ
  pub dep_counters : Map ℕ DepCounters

abbrev pub new : DepRegistry
new = record {
  deps = [];
  subs = [];
  modes = [];
  ordered_deps = [];
  ordered_dep_indices = [];
  dep_meta = [];
  adj_epochs = [];
  adj_epoch_counter = 0;
  dep_counters = [];
}

unfoldable pub bump_epoch : ℕ → DepRegistry → DepRegistry
bump_epoch n r =
    let e = inc64 r.adj_epoch_counter in
    record r { adj_epoch_counter = e; adj_epochs = insert n e r.adj_epochs }

unfoldable pub adj_epoch : ℕ → DepRegistry → ℕ
adj_epoch n r = get_or (get n r.adj_epochs) 0

abbrev pub push : ℕ → List ℕ → List ℕ
push x xs = xs ++ x ∷ []

unfoldable pub subscribe_with_meta : ℕ → ℕ → DepMeta → DepRegistry → DepRegistry
unfolding bump_epoch entry
subscribe_with_meta source subscriber meta r = bump_epoch subscriber (
    bump_epoch source (record r {
      deps = entry subscriber [] (add source) r.deps;
      subs = entry source [] (add subscriber) r.subs;
      ordered_deps = entry subscriber [] (push source) r.ordered_deps;
      dep_meta = insert (source, subscriber) meta r.dep_meta;
    }))

unfoldable pub subscribe : ℕ → ℕ → DepRegistry → DepRegistry
unfolding subscribe_with_meta
subscribe source subscriber r = subscribe_with_meta source subscriber default_meta r

unfoldable pub subscribe_with_meta_indexed : ℕ → ℕ → ℕ → DepMeta → DepRegistry → DepRegistry
unfolding bump_epoch entry
subscribe_with_meta_indexed source subscriber source_dense meta r = bump_epoch subscriber (
    bump_epoch source (record r {
      deps = entry subscriber [] (add source) r.deps;
      subs = entry source [] (add subscriber) r.subs;
      ordered_deps = entry subscriber [] (push source) r.ordered_deps;
      ordered_dep_indices = entry subscriber [] (push source_dense) r.ordered_dep_indices;
      dep_meta = insert (source, subscriber) meta r.dep_meta;
    }))

-- `iter().position(|id| *id == source)`.
unfoldable pub position : ℕ → List ℕ → Option ℕ
position x [] = none
position x (y ∷ ys) =
    if eqb y x then some 0 else elim (position x ys) [ none ↦ none | some i ↦ some (suc i) ]

-- The first occurrence of `source` goes, with the index at its position.
abbrev pub drop_position : Option ℕ → ℕ → DepRegistry → DepRegistry
drop_position none subscriber r = r
drop_position (some i) subscriber r = record r {
  ordered_deps = modify subscriber (λ od. remove_at od i) r.ordered_deps;
  ordered_dep_indices = modify subscriber (λ odi. remove_at odi i) r.ordered_dep_indices;
}

unfoldable pub drop_ordered : ℕ → ℕ → DepRegistry → DepRegistry
unfolding position
drop_ordered source subscriber r =
    drop_position (position source (get_or (get subscriber r.ordered_deps) [])) subscriber r

unfoldable pub unsubscribe : ℕ → ℕ → DepRegistry → DepRegistry
unfolding bump_epoch drop_ordered
unsubscribe source subscriber r =
    let r' = drop_ordered source subscriber (record r {
      deps = modify subscriber (discard source) r.deps;
      subs = modify source (discard subscriber) r.subs;
    }) in
    bump_epoch subscriber
      (bump_epoch source (record r' { dep_meta = remove (source, subscriber) r'.dep_meta }))

-- `for src in upstream { self.unsubscribe(src, id); }`.
unfoldable pub unsubscribe_all : List ℕ → ℕ → DepRegistry → DepRegistry
unfolding unsubscribe
unsubscribe_all [] id r = r
unsubscribe_all (src ∷ upstream) id r = unsubscribe_all upstream id (unsubscribe src id r)

-- The loop over the downstream nodes.
unfoldable pub forget_source : ℕ → List ℕ → DepRegistry → DepRegistry
unfolding drop_ordered
forget_source id [] r = r
forget_source id (sub ∷ downstream) r =
    let r' = drop_ordered id sub (record r { deps = modify sub (discard id) r.deps }) in
    forget_source id downstream (record r' { dep_meta = remove (id, sub) r'.dep_meta })

unfoldable pub remove_node : ℕ → DepRegistry → DepRegistry
unfolding unsubscribe_all forget_source bump_epoch
remove_node id r =
    let r1 = unsubscribe_all (get_or (get id r.deps) []) id r in
    let r2 = forget_source id (get_or (get id r1.subs) []) r1 in
    bump_epoch id (record r2 {
      deps = remove id r2.deps;
      subs = remove id r2.subs;
      modes = remove id r2.modes;
      ordered_deps = remove id r2.ordered_deps;
      ordered_dep_indices = remove id r2.ordered_dep_indices;
      dep_counters = remove id r2.dep_counters;
    })

unfoldable pub deps_of : ℕ → DepRegistry → List ℕ
deps_of id r = get_or (get id r.deps) []

unfoldable pub subs_of : ℕ → DepRegistry → List ℕ
subs_of id r = get_or (get id r.subs) []

unfoldable pub subs_vec : ℕ → DepRegistry → List ℕ
unfolding subs_of
subs_vec id r = sort (subs_of id r)

unfoldable pub ordered_deps_of : ℕ → DepRegistry → List ℕ
ordered_deps_of id r = get_or (get id r.ordered_deps) []

unfoldable pub ordered_dep_indices_of : ℕ → DepRegistry → List ℕ
ordered_dep_indices_of id r = get_or (get id r.ordered_dep_indices) []

unfoldable pub mode_of : ℕ → DepRegistry → ExecMode
mode_of id r = get_or (get id r.modes) eager

unfoldable pub set_mode : ℕ → ExecMode → DepRegistry → DepRegistry
set_mode id mode r = record r { modes = insert id mode r.modes }

unfoldable pub meta_of : ℕ → ℕ → DepRegistry → Option DepMeta
meta_of source subscriber r = get (source, subscriber) r.dep_meta

unfoldable pub compiled_label : ℕ → ℕ → DepRegistry → CompiledEdgeLabel
compiled_label source subscriber r = elim (get (source, subscriber) r.dep_meta) [
  | none ↦ permissive_default
  | some m ↦ m.label
]

unfoldable pub set_compiled_label : ℕ → ℕ → CompiledEdgeLabel → DepRegistry → DepRegistry
set_compiled_label source subscriber label r = record r {
  dep_meta = modify (source, subscriber) (λ m. record m { label = label }) r.dep_meta;
}

unfoldable pub update_last_seen : ℕ → ℕ → ProductTime → DepRegistry → DepRegistry
update_last_seen source subscriber time r = record r {
  dep_meta =
      modify (source, subscriber) (λ m. record m { last_seen = join m.last_seen time }) r.dep_meta;
}

unfoldable pub dep_counter : ℕ → DepRegistry → Option DepCounters
dep_counter id r = get id r.dep_counters

unfoldable pub add_dep_to_counter : ℕ → T → DepRegistry → DepRegistry
unfolding entry
add_dep_to_counter subscriber dep_val r = record r {
  dep_counters = entry subscriber no_counts (add_value dep_val) r.dep_counters;
}

unfoldable pub remove_dep_from_counter : ℕ → T → DepRegistry → DepRegistry
remove_dep_from_counter subscriber dep_val r = record r {
  dep_counters = modify subscriber (remove_value dep_val) r.dep_counters;
}

unfoldable pub update_dep_counter : ℕ → T → T → DepRegistry → DepRegistry
update_dep_counter subscriber old new r = record r {
  dep_counters = modify subscriber (update old new) r.dep_counters;
}
