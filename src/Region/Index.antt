-- ===== src/Region/Index.antt =====
-- `build_region_inv` of core-rs/src/region.rs: the index from slots to the rows that read them, and
-- the hints on contiguous rows.
use pgress.Prelude.{
  ℕ, zero, suc, ◌+◌, ◌-◌, ◌%◌, ◌^◌, Bool, true, ◌&&◌, List, [], ◌∷◌, ◌++◌, Option, none, some,
  length, get_or, take, drop, leb, eqb, if◌then◌else◌, Map, get, entry, insert, nat_eq,
}
use mathlib.Core.Option
use pgress.Prelude.Sorting.{sort}

-- `xs[s..e]`; where the source would panic, what there is of it.
abbrev pub slice : ℕ → ℕ → List ℕ → List ℕ
slice s e xs = take (e - s) (drop s xs)

-- The dependencies of a row.
abbrev pub row_cols : List ℕ → List ℕ → ℕ → List ℕ
row_cols dep_offsets dep_cols row =
    slice (get_or dep_offsets row 0) (get_or dep_offsets (row + 1) 0) dep_cols

abbrev pub u32 : ℕ → ℕ
u32 n = n % 2 ^ 32

-- The inner loop: the row is pushed on the list of each of its columns.
unfoldable pub invert_row : ℕ → List ℕ → Map ℕ (List ℕ) → Map ℕ (List ℕ)
unfolding entry insert get
invert_row row [] inv = inv
invert_row row (col ∷ cols) inv =
    invert_row row cols (entry col [] (λ rows. rows ++ u32 row ∷ []) inv)

-- The outer loop, from row `row` on, by the number of rows left.
unfoldable pub invert : List ℕ → List ℕ → ℕ → ℕ → Map ℕ (List ℕ) → Map ℕ (List ℕ)
unfolding invert_row
invert dep_offsets dep_cols zero row inv = inv
invert dep_offsets dep_cols (suc rounds) row inv =
    invert dep_offsets dep_cols rounds (row + 1)
      (invert_row row (row_cols dep_offsets dep_cols row) inv)

abbrev pub keys : Map ℕ (List ℕ) → List ℕ
keys [] = []
keys ((k, rows) ∷ inv) = k ∷ keys inv

-- The loop over the sorted keys, on the rows and the offsets so far.
unfoldable pub lay_out : Map ℕ (List ℕ) → List ℕ → List ℕ → List ℕ → List ℕ × List ℕ
lay_out inv [] offsets rows = (offsets, rows)
lay_out inv (key ∷ ks) offsets rows =
    let rows' = rows ++ Option.get_or (get key inv) [] in
    lay_out inv ks (offsets ++ u32 (length rows') ∷ []) rows'

-- `.enumerate().all(|(k, &c)| c == first + k as u32)`, from position `k` on.
unfoldable pub counts_up : ℕ → ℕ → List ℕ → Bool
counts_up first k [] = true
counts_up first k (c ∷ cols) = eqb c (u32 (first + u32 k)) && counts_up first (k + 1) cols

unfoldable pub hint : List ℕ → List ℕ → ℕ → Option ℕ
unfolding counts_up
hint dep_offsets dep_cols row =
    let rs = get_or dep_offsets row 0 in
    let re = get_or dep_offsets (row + 1) 0 in
    let first = get_or dep_cols rs 0 in
    if leb re rs
    then none
    else if counts_up first 0 (slice rs re dep_cols)
    then some first
    else none

-- `(0..n_rows).map(hint)`, from `row` on.
unfoldable pub hints : List ℕ → List ℕ → ℕ → ℕ → List (Option ℕ)
unfolding hint
hints dep_offsets dep_cols zero row = []
hints dep_offsets dep_cols (suc rounds) row =
    hint dep_offsets dep_cols row ∷ hints dep_offsets dep_cols rounds (row + 1)

pub record RegionInv : Type 0 where
  pub col_inv_keys : List ℕ
  pub col_inv_offsets : List ℕ
  pub col_inv_rows : List ℕ
  pub contig_start : List (Option ℕ)

unfoldable pub build_region_inv : List ℕ → List ℕ → ℕ → RegionInv
unfolding invert lay_out hints sort
build_region_inv dep_offsets dep_cols n_rows =
    let inv = invert dep_offsets dep_cols n_rows 0 [] in
    let col_inv_keys = sort (keys inv) in
    let laid = lay_out inv col_inv_keys (0 ∷ []) [] in
    record {
      col_inv_keys = col_inv_keys;
      col_inv_offsets = laid.0;
      col_inv_rows = laid.1;
      contig_start = hints dep_offsets dep_cols n_rows 0;
    }
