-- ===== src/Examples/Regions.antt =====
-- A circuit of two rows over three slots: a negation, and a meet of the source and the negation.
use pgress.Prelude.{
  ℕ, zero, suc, ◌+◌, ◌-◌, ◌<◌, ◌≡◌, ◌↔◌, refl, arith, true, List, [], ◌∷◌, some, length, get_or,
  get, insert, entry, nat_eq,
}
use pgress.Prelude.Sorting.{member, sort, insert_sorted}
use pgress.Ternary.{pos}
use pgress.Values
use pgress.Values.{ValueStore, alloc, grow, set_by_dense, write_bit, get_by_dense}
use pgress.Values.Planes.{
  PlanesMatch, Wide, new-PlanesMatch, alloc-PlanesMatch, set_by_dense-PlanesMatch, digit,
}
use pgress.Node.{eval, mv_neg_of, meet_all_of}
use pgress.Region
use pgress.Region.{
  CompiledRegion, RegionArtifactCache, epoch_tracked, insert_region, index_inputs,
  mark_dirty_for_input,
}
use pgress.Region.Index.{build_region_inv, invert, invert_row, lay_out, hints, hint, counts_up}
use pgress.Region.Run.{run_compiled_region, readers, row_deps, gather, eval_row}
use pgress.Region.Named.{IsBuilt, readers_iff}
use pgress.Region.Row.{IsCircuit, eval_row-gather}
use pgress.Region.Consistent.{Settled, run_compiled_region-Settled}
use pgress.Region.Cache.{IsListed, insert_region-IsListed, mark_dirty_for_input_lem}

abbrev circuit : CompiledRegion
circuit = record {
  members = 2 ∷ 3 ∷ [];
  rules = mv_neg_of ∷ meet_all_of ∷ [];
  outputs = 1 ∷ 2 ∷ [];
  inputs = 0 ∷ [];
  dep_offsets = 0 ∷ 1 ∷ 3 ∷ [];
  dep_cols = 0 ∷ 0 ∷ 1 ∷ [];
  compiled_at = 7;
  col_inv_keys = 0 ∷ 1 ∷ [];
  col_inv_offsets = 0 ∷ 2 ∷ 3 ∷ [];
  col_inv_rows = 0 ∷ 1 ∷ 1 ∷ [];
  contig_start = some 0 ∷ some 0 ∷ [];
}

circuit-IsBuilt : IsBuilt circuit
unfolding build_region_inv invert invert_row lay_out hints hint counts_up sort insert_sorted entry
    insert get
circuit-IsBuilt = record { built = refl; rows_fit = omega arith; index_fits = omega arith }

abbrev blank : ValueStore
blank = (alloc 3 (alloc 2 (alloc 1 Values.new).0).0).0

abbrev store : ValueStore
store = set_by_dense 0 pos blank

store_size : length store.cache ≡ 3
unfolding alloc grow set_by_dense
store_size = refl

store-PlanesMatch : PlanesMatch store
unfolding alloc grow
store-PlanesMatch = set_by_dense-PlanesMatch 0 pos blank (omega arith) (
    alloc-PlanesMatch 3 (alloc 2 (alloc 1 Values.new).0).0
      (alloc-PlanesMatch 2 (alloc 1 Values.new).0 (alloc-PlanesMatch 1 Values.new new-PlanesMatch)))

circuit-deps_in : (i col : ℕ) → i < 2 → member col (row_deps circuit i) ≡ true → col < 3
unfolding member
circuit-deps_in zero col h m = ground (arith, m)
circuit-deps_in (suc zero) col h m = ground (arith, m)
circuit-deps_in (suc (suc i)) col h m = absurd (omega arith)

circuit-IsCircuit : IsCircuit (length store.cache) circuit
circuit-IsCircuit = rw store_size (record {
  small = omega arith;
  outputs_in = outputs_in;
  deps_in = circuit-deps_in;
  ordered = ordered;
  apart = apart;
  counted = counted;
})
  where
    outputs_in : (i : ℕ) → i < 2 → get_or circuit.outputs i 0 < 3
    outputs_in zero h = omega arith
    outputs_in (suc zero) h = omega arith
    outputs_in (suc (suc i)) h = absurd (omega arith)

    ordered :
        (i j : ℕ)
        → i < 2
        → j < 2
        → member (get_or circuit.outputs j 0) (row_deps circuit i) ≡ true
        → j < i
    ordered zero zero h k m = unfold member in cc
    ordered zero (suc zero) h k m = unfold member in cc
    ordered (suc zero) zero h k m = omega arith
    ordered (suc zero) (suc zero) h k m = unfold member in cc
    ordered (suc (suc i)) j h k m = absurd (omega arith)
    ordered i (suc (suc j)) h k m = absurd (omega arith)

    apart :
        (i j : ℕ) → i < 2 → j < 2 → get_or circuit.outputs i 0 ≡ get_or circuit.outputs j 0 → i ≡ j
    apart zero zero h k e = refl
    apart zero (suc zero) h k e = omega arith
    apart (suc zero) zero h k e = omega arith
    apart (suc zero) (suc zero) h k e = refl
    apart (suc (suc i)) j h k e = absurd (omega arith)
    apart i (suc (suc j)) h k e = absurd (omega arith)

    counted :
        (i : ℕ)
        → i < 2
        → length (row_deps circuit i)
          ≡ get_or circuit.dep_offsets (i + 1) 0 - get_or circuit.dep_offsets i 0
    counted zero h = refl
    counted (suc zero) h = refl
    counted (suc (suc i)) h = absurd (omega arith)

-- The slot of the source is dirty.
abbrev dirty : List ℕ
dirty = 1 ∷ []

dirty-Wide : Wide dirty
dirty-Wide zero = omega arith
dirty-Wide (suc w) = omega arith

-- Both rows read the dirty slot.
all_dirty :
    (r : ℕ)
    → r < 2
    → ((col : ℕ) → member col (row_deps circuit r) ≡ true → digit dirty col ≡ 0)
    → Settled circuit store r
unfolding member
all_dirty zero h clean = absurd (let off = clean 0 refl in omega (arith, off))
all_dirty (suc zero) h clean = absurd (let off = clean 0 refl in omega (arith, off))
all_dirty (suc (suc r)) h clean = absurd (omega arith)

run_compiled_region-Settled_example :
    PlanesMatch (run_compiled_region circuit store dirty).1
    × ((r : ℕ) → r < 2 → Settled circuit (run_compiled_region circuit store dirty).1 r)
run_compiled_region-Settled_example =
    run_compiled_region-Settled circuit store dirty circuit-IsCircuit circuit-IsBuilt
      store-PlanesMatch dirty-Wide all_dirty

eval_row-gather_example : eval_row circuit 1 store ≡ eval meet_all_of (gather circuit 1 store)
eval_row-gather_example =
    eval_row-gather circuit 1 store circuit-IsCircuit circuit-IsBuilt store-PlanesMatch
      (omega arith)

readers_example :
    (member 1 (readers circuit 0) ≡ true) ↔ ((1 < 2) × (member 0 (row_deps circuit 1) ≡ true))
readers_example = readers_iff circuit 1 0 circuit-IsBuilt

abbrev cache : RegionArtifactCache
cache = insert_region 2 circuit epoch_tracked Region.new

new-IsListed : IsListed Region.new
unfolding get
new-IsListed root slot region e m = cc

mark_dirty_example :
    ((region : CompiledRegion)
      → get 2 cache.regions ≡ some region
      → member 0 region.inputs ≡ true
      → member 2 (mark_dirty_for_input 0 cache).dirty ≡ true)
    × (member 2 cache.dirty ≡ true → member 2 (mark_dirty_for_input 0 cache).dirty ≡ true)
mark_dirty_example =
    mark_dirty_for_input_lem 0 2 cache
      (insert_region-IsListed 2 circuit epoch_tracked Region.new new-IsListed)
