-- ===== src/Region/Layout.antt =====
-- How `build_region_inv` (core-rs/src/region.rs) lays out its index: the rows of a slot stand between
-- two neighbouring offsets.
use native.Mathlib.Nat.{mod-eq_of_lt}
use pgress.Prelude.{
  ℕ, zero, suc, ◌+◌, ◌-◌, ◌^◌, ◌≤◌, ◌<◌, ◌≡◌, ◌↔◌, refl, sym, ap, ◌∙◌, inl, inr, arith, true, false,
  ◌&&◌, ◌||◌, List, [], ◌∷◌, ◌++◌, none, length, length-append, get_or, get_or-append_left, take,
  drop, eqb, if◌then◌else◌, Bool-cases, ==→eq, Map, get, entry, get-insert, nat_eq,
}
use mathlib.Core.Option
use mathlib.Core.List.{append_assoc, append-nil}
use pgress.Prelude.Sorting.{member, member-append}
use pgress.Region.Index.{slice, row_cols, u32, invert_row, invert, keys, lay_out}

-- `inv[&col]`, with nothing for a slot that is not there.
abbrev pub rows_for : ℕ → Map ℕ (List ℕ) → List ℕ
rows_for col inv = Option.get_or (get col inv) []

rows_for-entry :
    (c row col : ℕ) (inv : Map ℕ (List ℕ))
    → rows_for col (entry c [] (λ rows. rows ++ row ∷ []) inv)
      ≡ (if eqb c col then rows_for c inv ++ row ∷ [] else rows_for col inv)
unfolding entry
rows_for-entry c row col inv =
    rw (get-insert col c (rows_for c inv ++ row ∷ []) inv)
      (elim (Bool-cases (eqb c col)) [ inl hit ↦ rw hit refl | inr miss ↦ rw miss refl ])

member-invert_row :
    (r row col : ℕ) (cols : List ℕ) (inv : Map ℕ (List ℕ))
    → member r (rows_for col (invert_row row cols inv))
      ≡ (member r (rows_for col inv) || eqb (u32 row) r && member col cols)
unfolding invert_row
member-invert_row r row col [] inv = unfold member in ground arith
member-invert_row r row col (c ∷ cols) inv =
    let inv' = entry c [] (λ rows. rows ++ u32 row ∷ []) inv in
    member-invert_row r row col cols inv'
    ∙ rw (rows_for-entry c (u32 row) col inv) (elim (Bool-cases (eqb c col)) [
      | inl hit ↦
          let same_col : c ≡ col = ==→eq c col hit in
          rw (hit, member-append r (rows_for c inv) (u32 row ∷ []), same_col)
            (unfold member in ground arith)
      | inr miss ↦ rw miss (unfold member in ground arith)
    ])

module _ (dep_offsets dep_cols : List ℕ) where
  -- Row `r` reads `col`, and the loop has passed it by row `row`.
  abbrev pub Reads : ℕ → ℕ → ℕ → Type 0
  Reads row r col = (r < row) × (member col (row_cols dep_offsets dep_cols r) ≡ true)

  pub invert_lem :
      (rounds row r col : ℕ) (inv : Map ℕ (List ℕ))
      → row + rounds ≤ 2 ^ 32
      → ((member r (rows_for col inv) ≡ true) ↔ Reads row r col)
      → (member r (rows_for col (invert dep_offsets dep_cols rounds row inv)) ≡ true)
        ↔ Reads (row + rounds) r col
  unfolding invert
  invert_lem zero row r col inv h e = let none_left : row + 0 ≡ row = omega arith in rw none_left e
  invert_lem (suc rounds) row r col inv h e =
      let next : row + suc rounds ≡ row + 1 + rounds = omega arith in
      let cols = row_cols dep_offsets dep_cols row in
      let small : u32 row ≡ row = omega arith in
      let at_row : row ≡ r → member col (row_cols dep_offsets dep_cols r) ≡ member col cols =
        λ p. ap (λ (k : ℕ). member col (row_cols dep_offsets dep_cols k)) (sym p) in
      rw next (
        invert_lem rounds (row + 1) r col (invert_row row cols inv) (omega arith) (
          let step = member-invert_row r row col cols inv in
          elim (Bool-cases (eqb row r)) [
            | inl now ↦
                let same_row : row ≡ r = ==→eq row r now in
                let here = at_row same_row in rw (step, small, now) (ground (arith, e, here))
            | inr other ↦ rw (step, small, other) (ground (arith, e))
          ]))

pub get-keys : (col : ℕ) (inv : Map ℕ (List ℕ)) → member col (keys inv) ≡ false → get col inv ≡ none
unfolding member get
get-keys col [] h = refl
get-keys col ((k, rows) ∷ inv) h = ground (arith, get-keys col inv)

take-prefix : (xs ys : List ℕ) → take (length xs) (xs ++ ys) ≡ xs
take-prefix [] ys = refl
take-prefix (x ∷ xs) ys = ap (◌∷◌ x) (take-prefix xs ys)

drop-prefix : (xs ys : List ℕ) → drop (length xs) (xs ++ ys) ≡ ys
drop-prefix [] ys = refl
drop-prefix (x ∷ xs) ys = drop-prefix xs ys

slice-middle : (xs ys zs : List ℕ) → slice (length xs) (length (xs ++ ys)) ((xs ++ ys) ++ zs) ≡ ys
slice-middle xs ys zs =
    let size : length (xs ++ ys) - length xs ≡ length ys = omega (arith, length-append xs ys) in
    rw (size, append_assoc xs ys zs, drop-prefix xs (ys ++ zs)) (take-prefix ys zs)

get_or-append_at :
    (xs : List ℕ) (y m : ℕ) (ys : List ℕ) → length xs ≡ m → get_or (xs ++ y ∷ ys) m 0 ≡ y
get_or-append_at [] y zero ys h = refl
get_or-append_at [] y (suc m) ys h = absurd (omega arith)
get_or-append_at (x ∷ xs) y zero ys h = absurd (omega arith)
get_or-append_at (x ∷ xs) y (suc m) ys h = get_or-append_at xs y m ys (omega arith)

module _ (inv : Map ℕ (List ℕ)) where
  -- What the loop over the keys adds to its two vectors.
  lay_out-extends :
      (ks offsets rows : List ℕ)
      → let laid = lay_out inv ks offsets rows in
        ((more : List ℕ) × (laid.0 ≡ offsets ++ more)) × ((tail : List ℕ) × (laid.1 ≡ rows ++ tail))
  unfolding lay_out
  lay_out-extends [] offsets rows = (([], sym (append-nil offsets)), ([], sym (append-nil rows)))
  lay_out-extends (k ∷ ks) offsets rows =
      let rows' = rows ++ rows_for k inv in
      let ((more, p), (tail, q)) = lay_out-extends ks (offsets ++ u32 (length rows') ∷ []) rows' in
      (
        (u32 (length rows') ∷ more, p ∙ append_assoc offsets (u32 (length rows') ∷ []) more),
        (rows_for k inv ++ tail, q ∙ append_assoc rows (rows_for k inv) tail),
      )

  pub lay_out-at :
      (ks offsets rows : List ℕ) (col p m : ℕ)
      → length offsets ≡ suc m
      → get_or offsets m 0 ≡ length rows
      → p < length ks
      → get_or ks p 0 ≡ col
      → length (lay_out inv ks offsets rows).1 < 2 ^ 32
      → let laid = lay_out inv ks offsets rows in
        slice (get_or laid.0 (m + p) 0) (get_or laid.0 (m + p + 1) 0) laid.1 ≡ rows_for col inv
  unfolding lay_out
  lay_out-at [] offsets rows col p m size last inside e short = absurd (omega arith)
  lay_out-at (k ∷ ks) offsets rows col zero m size last inside e short =
      let rows' = rows ++ rows_for k inv in
      let offsets' = offsets ++ u32 (length rows') ∷ [] in
      let laid = lay_out inv ks offsets' rows' in
      let ((more, f), (tail, g)) = lay_out-extends ks offsets' rows' in
      let fits : length rows' < 2 ^ 32 =
        omega (arith, ap length g, length-append rows' tail, short) in
      let size' : length offsets' ≡ suc (suc m) =
        omega (arith, length-append offsets (u32 (length rows') ∷ []), size) in
      let last' : get_or offsets' (suc m) 0 ≡ length rows' =
        get_or-append_at offsets _ (suc m) [] size ∙ mod-eq_of_lt fits in
      let here : m + 0 ≡ m = omega arith in
      let next : m + 1 ≡ suc m = omega arith in
      let start : get_or laid.0 m 0 ≡ length rows =
        rw
          (
            f,
            get_or-append_left offsets' more m 0 (omega (arith, size')),
            get_or-append_left offsets (u32 (length rows') ∷ []) m 0 (omega (arith, size)),
          )
          last in
      let to : get_or laid.0 (suc m) 0 ≡ length rows' =
        rw (f, get_or-append_left offsets' more (suc m) 0 (omega (arith, size'))) last' in
      rw (here, next, start, to, g, sym e) (slice-middle rows (rows_for k inv) tail)
  lay_out-at (k ∷ ks) offsets rows col (suc p) m size last inside e short =
      let rows' = rows ++ rows_for k inv in
      let offsets' = offsets ++ u32 (length rows') ∷ [] in
      let ((more, f), (tail, g)) = lay_out-extends ks offsets' rows' in
      let fits : length rows' < 2 ^ 32 =
        omega (arith, ap length g, length-append rows' tail, short) in
      let size' : length offsets' ≡ suc (suc m) =
        omega (arith, length-append offsets (u32 (length rows') ∷ []), size) in
      let last' : get_or offsets' (suc m) 0 ≡ length rows' =
        get_or-append_at offsets _ (suc m) [] size ∙ mod-eq_of_lt fits in
      let place : m + suc p ≡ suc m + p = omega arith in
      rw place (lay_out-at ks offsets' rows' col p (suc m) size' last' (omega arith) e short)
