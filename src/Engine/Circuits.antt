-- ===== src/Engine/Circuits.antt =====
-- The runs of dirty compiled regions at the start of `drain_and_stabilize` (core-rs/src/engine.rs).
use pgress.Prelude.{
  ℕ, ◌+◌, ◌%◌, ◌^◌, List, [], ◌∷◌, Option, none, some, length, map, if◌then◌else◌, get, nat_eq,
}
use pgress.Prelude.Sorting.{member}
use pgress.Ternary.{T}
use pgress.Time.{ProductTime}
use pgress.Node
use pgress.Node.{Node, eager, same_mode}
use pgress.Graph.{update_node}
use pgress.Deps.{subs_vec}
use pgress.Values.{dense_index}
use pgress.Propagate.{value_changed}
use pgress.Propagate.Drain.{restat}
use pgress.Region.{CompiledRegion, take_dirty}
use pgress.Region.Run.{raise, run_compiled_region}
use pgress.Engine.{Engine, on_graph, emit, notify}

-- The members of a region that has run are handled.
abbrev pub mark_handled : Option ℕ → List ℕ → List ℕ
mark_handled none handled = handled
mark_handled (some dense) handled = raise dense handled

unfoldable pub handle_members : List ℕ → Engine → Engine
unfolding dense_index raise
handle_members [] e = e
handle_members (id ∷ members) e = handle_members members (record e {
  compiled_handled = mark_handled (dense_index id e.world.values) e.compiled_handled;
})

-- The subscribers outside the region.
abbrev pub outside : List ℕ → List ℕ → List ℕ
outside members [] = []
outside members (sub ∷ subs) =
    if member sub members then outside members subs else sub ∷ outside members subs

-- The loop over the changed outputs.
unfoldable pub sync_changed : ProductTime → List ℕ → List (ℕ × T × T) → Engine → Engine
unfolding update_node Node.set_value subs_vec notify
sync_changed causal members [] e = e
sync_changed causal members ((id, old, new) ∷ changed) e =
    let e' =
      emit (value_changed id old new)
        (on_graph (update_node id (λ n. (Node.set_value new n).0)) e) in
    sync_changed causal members changed
      (notify causal id old new (outside members (subs_vec id e'.world.deps)) e')

-- One dirty root.
unfoldable pub run_region : Option CompiledRegion → Engine → Engine
unfolding run_compiled_region handle_members sync_changed
run_region none e = e
run_region (some region) e =
    let (changed, values, dirty_slots) = run_compiled_region region e.world.values e.dirty_slots in
    let e' =
      handle_members region.members
        (record e { world = record e.world { values = values }; dirty_slots = dirty_slots }) in
    let count =
      restat
        λ s. record s { nodes_materialized = (s.nodes_materialized + length changed) % 2 ^ 64 } in
    sync_changed e'.causal_time region.members changed (record e' { world = count e'.world })

unfoldable pub run_regions : List ℕ → Engine → Engine
unfolding run_region get
run_regions [] e = e
run_regions (root ∷ roots) e = run_regions roots (run_region (get root e.region_cache.regions) e)

abbrev pub clear_words : List ℕ → List ℕ
clear_words words = map (λ word. 0) words

-- Tier 2: the dirty regions, and then no slot is dirty.
unfoldable pub run_dirty : Engine → Engine
unfolding run_regions take_dirty
run_dirty e =
    let (roots, cache) = take_dirty e.region_cache in
    let e' = run_regions roots (record e { region_cache = cache }) in
    record e' { dirty_slots = clear_words e'.dirty_slots }
