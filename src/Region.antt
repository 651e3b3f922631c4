-- ===== src/Region.antt =====
-- Compiled regions of core-rs/src/region.rs: the declarations, the compiled circuit, and the cache of
-- circuits with its dirty flags. `usize` and `u32` positions are numbers; the casts to `u32` that
-- build the index are written out in Region/Index. Hash sets are lists without repetitions, in the
-- order of insertion (the source's order is unspecified).
pub mod Index
pub mod Run
pub mod Row
pub mod Marks
pub mod Cache
pub mod Search
pub mod Layout
pub mod Named
pub mod Digits
pub mod Commit
pub mod Consistent
use pgress.Prelude.{
  is_some, ℕ, Bool, true, false, not, ◌&&◌, List, [], ◌∷◌, ◌++◌, Option, none, some, foldl, eqb,
  if◌then◌else◌, Map, get, insert, remove, modify, entry, nat_eq,
}
use pgress.Prelude.Sorting.{member, add, discard}
use pgress.Node.{ComputeRule}

pub data RegionBoundary : Type 0 where
  dep_closure : ℕ → RegionBoundary
  explicit_set : List ℕ → RegionBoundary
  partition_scoped : ℕ → RegionBoundary

abbrev pub explicit_members : RegionBoundary → Option (List ℕ)
explicit_members (dep_closure max_depth) = none
explicit_members (explicit_set members) = some members
explicit_members (partition_scoped partition) = none

pub data StabilityContract : Type 0 where
  pinned epoch_tracked : StabilityContract

pub data CompilePolicy : Type 0 where
  eager lazy never : CompilePolicy

pub record CompiledRegion : Type 0 where
  pub members : List ℕ
  pub rules : List ComputeRule
  pub outputs : List ℕ
  pub inputs : List ℕ
  pub dep_offsets : List ℕ
  pub dep_cols : List ℕ
  pub compiled_at : ℕ
  pub col_inv_keys : List ℕ
  pub col_inv_offsets : List ℕ
  pub col_inv_rows : List ℕ
  pub contig_start : List (Option ℕ)

pub record RegionArtifactCache : Type 0 where
  pub regions : Map ℕ CompiledRegion
  pub contracts : Map ℕ StabilityContract
  pub dirty : List ℕ
  pub input_to_regions : Map ℕ (List ℕ)

abbrev pub new : RegionArtifactCache
new = record { regions = []; contracts = []; dirty = []; input_to_regions = [] }

-- The loop of `insert` over the boundary inputs.
unfoldable pub index_inputs : ℕ → List ℕ → Map ℕ (List ℕ) → Map ℕ (List ℕ)
unfolding entry insert get
index_inputs root [] m = m
index_inputs root (dense ∷ inputs) m =
    index_inputs root inputs (entry dense [] (λ roots. roots ++ root ∷ []) m)

unfoldable pub insert_region :
    ℕ → CompiledRegion → StabilityContract → RegionArtifactCache → RegionArtifactCache
unfolding index_inputs
insert_region root region contract cache = record cache {
  input_to_regions = index_inputs root region.inputs cache.input_to_regions;
  regions = insert root region cache.regions;
  contracts = insert root contract cache.contracts;
}

abbrev pub compiled_in : ℕ → Option CompiledRegion → Bool
compiled_in epoch none = false
compiled_in epoch (some region) = eqb region.compiled_at epoch

unfoldable pub is_valid : ℕ → ℕ → RegionArtifactCache → Bool
is_valid root current_epoch cache = elim (get root cache.contracts) [
  | none ↦ false
  | some pinned ↦ is_some (get root cache.regions)
  | some epoch_tracked ↦ compiled_in current_epoch (get root cache.regions)
]

abbrev pub is_tracked : Option StabilityContract → Bool
is_tracked none = false
is_tracked (some pinned) = false
is_tracked (some epoch_tracked) = true

-- The test of the filter in `invalidate_for_node`.
abbrev pub is_stale : ℕ → Map ℕ StabilityContract → ℕ → CompiledRegion → Bool
is_stale node contracts root region = is_tracked (get root contracts) && member node region.members

-- `to_remove`: the roots of the stale circuits.
unfoldable pub stale_roots : ℕ → Map ℕ StabilityContract → Map ℕ CompiledRegion → List ℕ
stale_roots node contracts [] = []
stale_roots node contracts ((root, region) ∷ regions) =
    if is_stale node contracts root region
    then root ∷ stale_roots node contracts regions
    else stale_roots node contracts regions

-- The loop of `remove_reverse_map_for` over the inputs of the circuit.
unfoldable pub unindex_inputs : ℕ → List ℕ → Map ℕ (List ℕ) → Map ℕ (List ℕ)
unfolding modify
unindex_inputs root [] m = m
unindex_inputs root (dense ∷ inputs) m = unindex_inputs root inputs (modify dense (discard root) m)

abbrev pub unindex_region : ℕ → Option CompiledRegion → Map ℕ (List ℕ) → Map ℕ (List ℕ)
unindex_region root none m = m
unindex_region root (some region) m = unindex_inputs root region.inputs m

unfoldable pub remove_reverse_map_for : ℕ → RegionArtifactCache → RegionArtifactCache
unfolding unindex_inputs
remove_reverse_map_for root cache = record cache {
  input_to_regions = unindex_region root (get root cache.regions) cache.input_to_regions;
}

-- One round of the second loop of `invalidate_for_node`.
unfoldable pub evict : ℕ → RegionArtifactCache → RegionArtifactCache
unfolding remove_reverse_map_for discard
evict root cache =
    let cache' = remove_reverse_map_for root cache in
    record cache' { regions = remove root cache'.regions; dirty = discard root cache'.dirty }

abbrev pub evict_all : List ℕ → RegionArtifactCache → RegionArtifactCache
evict_all [] cache = cache
evict_all (root ∷ roots) cache = evict_all roots (evict root cache)

unfoldable pub invalidate_for_node : ℕ → RegionArtifactCache → RegionArtifactCache
unfolding stale_roots evict
invalidate_for_node node cache = evict_all (stale_roots node cache.contracts cache.regions) cache

abbrev pub mark_roots : Option (List ℕ) → List ℕ → List ℕ
mark_roots none dirty = dirty
mark_roots (some roots) dirty = foldl (λ d root. add root d) dirty roots

unfoldable pub mark_dirty_for_input : ℕ → RegionArtifactCache → RegionArtifactCache
unfolding add
mark_dirty_for_input dense cache = record cache {
  dirty = mark_roots (get dense cache.input_to_regions) cache.dirty;
}

-- The drained set, and the cache without it.
unfoldable pub take_dirty : RegionArtifactCache → List ℕ × RegionArtifactCache
take_dirty cache = (cache.dirty, record cache { dirty = [] })
