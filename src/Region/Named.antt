-- ===== src/Region/Named.antt =====
-- What `build_region_inv` (core-rs/src/region.rs) builds: the index names a row for a slot exactly if
-- the row reads it, and the hints go to the rows whose columns count up.
use pgress.Prelude.{
  ℕ, zero, suc, ◌+◌, ◌-◌, ◌^◌, ◌≤◌, ◌<◌, ◌≡◌, ◌↔◌, refl, sym, ap, subst, ◌∙◌, inl, inr, arith, true,
  false, List, [], ◌∷◌, Option, none, some, length, get_or, take, drop, leb, Bool-cases,
  Option-cases, get, nat_eq,
}
use pgress.Prelude.Sorting.{member, sort, sort-IsSorted, member-sort}
use pgress.Region.{CompiledRegion}
use pgress.Region.Index.{
  slice, row_cols, invert, keys, lay_out, counts_up, hint, hints, RegionInv, build_region_inv,
}
use pgress.Region.Run.{binary_search, readers, row_deps}
use pgress.Region.Layout.{rows_for, Reads, invert_lem, get-keys, lay_out-at}
use pgress.Region.Search.{binary_search-some, binary_search-none}

-- The four vectors of a circuit that come from the index.
abbrev pub inv_of : CompiledRegion → RegionInv
inv_of region = record {
  col_inv_keys = region.col_inv_keys;
  col_inv_offsets = region.col_inv_offsets;
  col_inv_rows = region.col_inv_rows;
  contig_start = region.contig_start;
}

-- The circuit's index and hints are those that are built for its rows, with positions that fit `u32`.
pub record IsBuilt (region : CompiledRegion) : Type 0 where
  pub built :
      inv_of region ≡ build_region_inv region.dep_offsets region.dep_cols (length region.members)
  pub rows_fit : length region.members ≤ 2 ^ 32
  pub index_fits : length region.col_inv_rows < 2 ^ 32

readers-rows_for :
    (region : CompiledRegion) (col : ℕ)
    → IsBuilt region
    → readers region col
      ≡ rows_for col (invert region.dep_offsets region.dep_cols (length region.members) 0 [])
unfolding readers build_region_inv
readers-rows_for region col b =
    let inv = invert region.dep_offsets region.dep_cols (length region.members) 0 [] in
    let ks = sort (keys inv) in
    let laid = lay_out inv ks (0 ∷ []) [] in
    let keys_eq : region.col_inv_keys ≡ ks = ap (λ (r : RegionInv). r.col_inv_keys) b.built in
    let offsets_eq : region.col_inv_offsets ≡ laid.0 =
      ap (λ (r : RegionInv). r.col_inv_offsets) b.built in
    let rows_eq : region.col_inv_rows ≡ laid.1 = ap (λ (r : RegionInv). r.col_inv_rows) b.built in
    rw keys_eq (elim (Option-cases (binary_search col ks)) [
      | inl nowhere ↦
          let missing : member col (keys inv) ≡ false =
            sym (member-sort col (keys inv))
            ∙ binary_search-none col ks (sort-IsSorted (keys inv)) nowhere in
          rw (nowhere, get-keys col inv missing) refl
      | inr (p, found) ↦
          let (inside, at) = binary_search-some col ks p found in
          let first : 0 + p ≡ p = omega arith in
          rw (found, offsets_eq, rows_eq)
            (subst
              (λ (k : ℕ).
                slice (get_or laid.0 k 0) (get_or laid.0 (k + 1) 0) laid.1 ≡ rows_for col inv)
              first
              (lay_out-at inv ks (0 ∷ []) [] col p 0 refl refl inside at
                (omega (arith, ap length rows_eq, b.index_fits))))
    ])

-- The index of a built circuit names a row for a slot exactly if it is a row of the circuit that
-- reads the slot.
pub readers_iff :
    (region : CompiledRegion) (row col : ℕ)
    → IsBuilt region
    → (member row (readers region col) ≡ true)
      ↔ ((row < length region.members) × (member col (row_deps region row) ≡ true))
unfolding get
readers_iff region row col b =
    let none_yet : (member row [] ≡ true) ↔ Reads region.dep_offsets region.dep_cols 0 row col =
      (λ m. absurd (unfold member in ground (arith, m)), λ (early, m). absurd (omega arith)) in
    let all : 0 + length region.members ≡ length region.members = omega arith in
    rw (readers-rows_for region col b) (
      subst
        (λ (k : ℕ).
          (member row (
              rows_for col (invert region.dep_offsets region.dep_cols (length region.members) 0 []))
            ≡ true)
          ↔ Reads region.dep_offsets region.dep_cols k row col)
        all
        (invert_lem region.dep_offsets region.dep_cols (length region.members) 0 row col []
          (omega (arith, b.rows_fit)) none_yet))

get_or-hints :
    (dep_offsets dep_cols : List ℕ) (rounds row i : ℕ)
    → i < rounds
    → get_or (hints dep_offsets dep_cols rounds row) i none ≡ hint dep_offsets dep_cols (row + i)
unfolding hints
get_or-hints dep_offsets dep_cols zero row i h = absurd (omega arith)
get_or-hints dep_offsets dep_cols (suc rounds) row zero h =
    let here : row + 0 ≡ row = omega arith in ap (hint dep_offsets dep_cols) (sym here)
get_or-hints dep_offsets dep_cols (suc rounds) row (suc i) h =
    let later : row + suc i ≡ row + 1 + i = omega arith in
    get_or-hints dep_offsets dep_cols rounds (row + 1) i (omega arith)
    ∙ ap (hint dep_offsets dep_cols) (sym later)

member-slice_head :
    (k s : ℕ) (xs : List ℕ)
    → 0 < length (take k (drop s xs))
    → member (get_or xs s 0) (take k (drop s xs)) ≡ true
unfolding member
member-slice_head zero s xs h = absurd (omega arith)
member-slice_head (suc k) zero [] h = absurd (omega arith)
member-slice_head (suc k) zero (x ∷ xs) h = ground arith
member-slice_head (suc k) (suc s) [] h = absurd (omega arith)
member-slice_head (suc k) (suc s) (x ∷ xs) h = member-slice_head (suc k) s xs h

hint_lem :
    (dep_offsets dep_cols : List ℕ) (row first : ℕ)
    → let cols = row_cols dep_offsets dep_cols row in
      length cols ≡ get_or dep_offsets (row + 1) 0 - get_or dep_offsets row 0
      → hint dep_offsets dep_cols row ≡ some first
      → (counts_up first 0 cols ≡ true) × (member first cols ≡ true)
unfolding hint
hint_lem dep_offsets dep_cols row first size e =
    let rs = get_or dep_offsets row 0 in
    let re = get_or dep_offsets (row + 1) 0 in
    let cols = row_cols dep_offsets dep_cols row in
    let head = get_or dep_cols rs 0 in
    elim (Bool-cases (leb re rs)) [
      | inl empty ↦ absurd (ground arith)
      | inr full ↦ elim (Bool-cases (counts_up head 0 cols)) [
        | inl up ↦
            let at : head ≡ first = ground arith in
            let some_cols : 0 < length cols = ground arith in
            rw (sym at) (up, member-slice_head (re - rs) rs dep_cols some_cols)
        | inr scattered ↦ absurd (ground arith)
      ]
    ]

-- A hint of a built circuit is the first column of a row whose columns count up from it.
pub hinted_lem :
    (region : CompiledRegion) (i first : ℕ)
    → IsBuilt region
    → i < length region.members
    → length (row_deps region i)
      ≡ get_or region.dep_offsets (i + 1) 0 - get_or region.dep_offsets i 0
    → get_or region.contig_start i none ≡ some first
    → (counts_up first 0 (row_deps region i) ≡ true) × (member first (row_deps region i) ≡ true)
unfolding build_region_inv
hinted_lem region i first b h size e =
    let hints_eq : region.contig_start
        ≡ hints region.dep_offsets region.dep_cols (length region.members) 0 =
      ap (λ (r : RegionInv). r.contig_start) b.built in
    let at : 0 + i ≡ i = omega arith in
    hint_lem region.dep_offsets region.dep_cols i first size (
      ap (hint region.dep_offsets region.dep_cols) (sym at)
      ∙ sym (get_or-hints region.dep_offsets region.dep_cols (length region.members) 0 i h)
      ∙ ap (λ (hs : List (Option ℕ)). get_or hs i none) (sym hints_eq)
      ∙ e)
