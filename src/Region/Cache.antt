-- ===== src/Region/Cache.antt =====
-- The cache of compiled regions (core-rs/src/region.rs): what invalidation takes out, and that a write
-- to a slot marks every circuit that reads it.
use pgress.Prelude.{
  ℕ, ◌≡◌, refl, sym, subst, ◌∙◌, inl, inr, arith, Bool, true, false, ◌&&◌, ◌||◌, List, [], ◌∷◌,
  ◌++◌, Option, none, some, some-inj, foldl, eqb, Bool-cases, Option-cases, ==→eq, Map, get, insert,
  modify, entry, get-insert, get-remove, get-modify, nat_eq,
}
use mathlib.Core.Option
use pgress.Prelude.Sorting.{member, member-append, add, discard, member-add, member-discard}
use pgress.Region.{
  CompiledRegion, RegionArtifactCache, StabilityContract, is_stale, stale_roots, index_inputs,
  insert_region, unindex_inputs, remove_reverse_map_for, evict, evict_all, invalidate_for_node,
  mark_roots, mark_dirty_for_input,
}

-- The circuit that is on record for a root is to be taken out.
abbrev pub stale_entry : ℕ → Map ℕ StabilityContract → ℕ → Option CompiledRegion → Bool
stale_entry node contracts root none = false
stale_entry node contracts root (some region) = is_stale node contracts root region

-- The roots on record for a slot.
abbrev roots_at : ℕ → Map ℕ (List ℕ) → List ℕ
roots_at slot m = Option.get_or (get slot m) []

member-index_inputs :
    (root r slot : ℕ) (inputs : List ℕ) (m : Map ℕ (List ℕ))
    → member r (roots_at slot (index_inputs root inputs m))
      ≡ (member r (roots_at slot m) || eqb root r && member slot inputs)
unfolding index_inputs entry
member-index_inputs root r slot [] m = unfold member in ground arith
member-index_inputs root r slot (d ∷ inputs) m =
    let m' = insert d (roots_at d m ++ root ∷ []) m in
    let ih = member-index_inputs root r slot inputs m' in
    ih
    ∙ rw (get-insert slot d (roots_at d m ++ root ∷ []) m) (elim (Bool-cases (eqb d slot)) [
      | inl hit ↦
          let at : d ≡ slot = ==→eq d slot hit in
          rw (hit, at, member-append r (roots_at slot m) (root ∷ []))
            (unfold member in ground arith)
      | inr miss ↦ rw miss (unfold member in ground arith)
    ])

member-unindex_inputs :
    (root r slot : ℕ) (inputs : List ℕ) (m : Map ℕ (List ℕ))
    → eqb root r ≡ false
    → member r (roots_at slot (unindex_inputs root inputs m)) ≡ member r (roots_at slot m)
unfolding unindex_inputs
member-unindex_inputs root r slot [] m ne = refl
member-unindex_inputs root r slot (d ∷ inputs) m ne =
    member-unindex_inputs root r slot inputs (modify d (discard root) m) ne
    ∙ rw (get-modify slot d (discard root) m) (elim (Bool-cases (eqb d slot)) [
      | inl hit ↦ rw hit (elim (Option-cases (get slot m)) [
        | inl e ↦ rw e refl
        | inr (roots, e) ↦ rw e (member-discard r root roots ∙ rw ne refl)
      ])
      | inr miss ↦ rw miss refl
    ])

-- Every circuit is on record at each of its inputs.
abbrev pub IsListed : RegionArtifactCache → Type 0
IsListed cache =
    (root slot : ℕ) (region : CompiledRegion)
    → get root cache.regions ≡ some region
    → member slot region.inputs ≡ true
    → member root (roots_at slot cache.input_to_regions) ≡ true

-- `insert` keeps every circuit on record at its inputs, the new one and the old ones.
pub insert_region-IsListed :
    (root : ℕ) (region : CompiledRegion) (contract : StabilityContract)
    (cache : RegionArtifactCache)
    → IsListed cache
    → IsListed (insert_region root region contract cache)
unfolding insert_region
insert_region-IsListed root region contract cache listed r slot region' e m =
    member-index_inputs root r slot region.inputs cache.input_to_regions
    ∙ elim (Bool-cases (eqb root r)) [
      | inl hit ↦
          let new_entry : get r (insert root region cache.regions) ≡ some region =
            get-insert r root region cache.regions ∙ rw hit refl in
          let same_region : region ≡ region' = some-inj (sym new_entry ∙ e) in
          let reads : member slot region.inputs ≡ true =
            subst (λ (g : CompiledRegion). member slot g.inputs ≡ true) (sym same_region) m in
          rw (hit, reads) (ground arith)
      | inr miss ↦
          let old_entry : get r cache.regions ≡ some region' =
            sym (get-insert r root region cache.regions ∙ rw miss refl) ∙ e in
          rw (listed r slot region' old_entry m) refl
    ]

evict-IsListed :
    (root : ℕ) (cache : RegionArtifactCache) → IsListed cache → IsListed (evict root cache)
unfolding evict remove_reverse_map_for
evict-IsListed root cache listed r slot region e m = elim (Bool-cases (eqb root r)) [
  | inl hit ↦ absurd (ground (arith, get-remove r root cache.regions))
  | inr miss ↦
      let old_entry : get r cache.regions ≡ some region =
        sym (get-remove r root cache.regions ∙ rw miss refl) ∙ e in
      let was = listed r slot region old_entry m in
      elim (Option-cases (get root cache.regions)) [
        | inl nothing ↦ rw nothing was
        | inr (gone, f) ↦
            rw f (member-unindex_inputs root r slot gone.inputs cache.input_to_regions miss ∙ was)
      ]
]

evict_all-IsListed :
    (roots : List ℕ) (cache : RegionArtifactCache)
    → IsListed cache
    → IsListed (evict_all roots cache)
evict_all-IsListed [] cache listed = listed
evict_all-IsListed (root ∷ roots) cache listed =
    evict_all-IsListed roots (evict root cache) (evict-IsListed root cache listed)

-- Invalidation keeps every circuit that is left on record at its inputs.
pub invalidate_for_node-IsListed :
    (node : ℕ) (cache : RegionArtifactCache)
    → IsListed cache
    → IsListed (invalidate_for_node node cache)
unfolding invalidate_for_node
invalidate_for_node-IsListed node cache =
    evict_all-IsListed (stale_roots node cache.contracts cache.regions) cache

member-add_all :
    (a : ℕ) (roots dirty : List ℕ)
    → member a (foldl (λ d root. add root d) dirty roots) ≡ (member a roots || member a dirty)
member-add_all a [] dirty = unfold member in refl
member-add_all a (root ∷ roots) dirty =
    member-add_all a roots (add root dirty)
    ∙ rw (member-add a root dirty) (unfold member in ground arith)

member-mark_roots :
    (root slot : ℕ) (m : Map ℕ (List ℕ)) (dirty : List ℕ)
    → member root (mark_roots (get slot m) dirty)
      ≡ (member root (roots_at slot m) || member root dirty)
member-mark_roots root slot m dirty = elim (Option-cases (get slot m)) [
  | inl nothing ↦ rw nothing (unfold member in refl)
  | inr (roots, e) ↦ rw e (member-add_all root roots dirty)
]

-- While every circuit is on record at its inputs, `mark_dirty_for_input` makes every circuit dirty that
-- has the slot among its inputs, and no dirty flag goes down.
pub mark_dirty_for_input_lem :
    (slot root : ℕ) (cache : RegionArtifactCache)
    → IsListed cache
    → ((region : CompiledRegion)
        → get root cache.regions ≡ some region
        → member slot region.inputs ≡ true
        → member root (mark_dirty_for_input slot cache).dirty ≡ true)
      × (member root cache.dirty ≡ true
          → member root (mark_dirty_for_input slot cache).dirty ≡ true)
unfolding mark_dirty_for_input
mark_dirty_for_input_lem slot root cache listed =
    let marked = member-mark_roots root slot cache.input_to_regions cache.dirty in
    (
      (λ region e m. marked ∙ rw (listed root slot region e m) refl),
      (λ was. marked ∙ rw was (ground arith)),
    )
