-- ===== src/Region/Row.antt =====
-- One row of `run_compiled_region` (core-rs/src/region.rs): its word-parallel path computes what the
-- gathered dependencies give.
use pgress.Prelude.{
  ℕ, zero, suc, ◌+◌, ◌-◌, ◌^◌, ◌≤◌, ◌<◌, ◌≡◌, refl, sym, ap, ap₂, ◌∙◌, inl, inr, arith, true, false,
  List, [], ◌∷◌, none, some, length, get_or, get_or-set_ne, take, drop, map, Option-cases,
}
use pgress.Prelude.Sorting.{member}
use pgress.Ternary.{T, neg}
use pgress.Values.{ValueStore, set_by_dense, get_by_dense}
use pgress.Values.Planes.{PlanesMatch}
use pgress.Values.Swar.{ranges_lem}
use pgress.Node.{
  ComputeRule, identity, mv_neg_of, mv_add_of, mv_mul_of, mv_sub_of, merge_of, meet_all_of,
  join_any_of, bochvar_fold, power_product, eval,
}
use pgress.Region.{CompiledRegion}
use pgress.Region.Index.{u32, counts_up}
use pgress.Region.Named.{IsBuilt, hinted_lem}
use pgress.Region.Run.{row_deps, rule_at, output_at, gather, eval_row, eval_contiguous}

-- The circuit fits a store with `cells` slots: it names no other slot, every row reads no output
-- of its own or of a later row, and no two rows share an output.
pub record IsCircuit (cells : ℕ) (region : CompiledRegion) : Type 0 where
  pub small : cells < 2 ^ 32
  pub outputs_in : (i : ℕ) → i < length region.members → output_at region i < cells
  pub deps_in :
      (i col : ℕ) → i < length region.members → member col (row_deps region i) ≡ true → col < cells
  pub ordered :
      (i j : ℕ)
      → i < length region.members
      → j < length region.members
      → member (output_at region j) (row_deps region i) ≡ true
      → j < i
  pub apart :
      (i j : ℕ)
      → i < length region.members
      → j < length region.members
      → output_at region i ≡ output_at region j
      → i ≡ j
  pub counted :
      (i : ℕ)
      → i < length region.members
      → length (row_deps region i)
        ≡ get_or region.dep_offsets (i + 1) 0 - get_or region.dep_offsets i 0

abbrev read_all : List ℕ → ValueStore → List T
read_all cols vs = map (λ col. get_by_dense col vs) cols

-- A write at a slot that is not read.
read_all-set :
    (cols : List ℕ) (d : ℕ) (v : T) (vs : ValueStore)
    → member d cols ≡ false
    → read_all cols (set_by_dense d v vs) ≡ read_all cols vs
unfolding set_by_dense get_by_dense member
read_all-set [] d v vs h = refl
read_all-set (col ∷ cols) d v vs h =
    ap₂ ◌∷◌ (get_or-set_ne vs.cache d col v neg (ground arith))
      (read_all-set cols d v vs (ground arith))

pub gather-set :
    (region : CompiledRegion) (i d : ℕ) (v : T) (vs : ValueStore)
    → member d (row_deps region i) ≡ false
    → gather region i (set_by_dense d v vs) ≡ gather region i vs
gather-set region i = read_all-set (row_deps region i)

take-drop_next :
    (s n : ℕ) (xs : List T)
    → s < length xs
    → take (suc n) (drop s xs) ≡ get_or xs s neg ∷ take n (drop (s + 1) xs)
take-drop_next s n [] h = absurd (omega arith)
take-drop_next zero n (x ∷ xs) h = refl
take-drop_next (suc s) n (x ∷ xs) h =
    let next : suc s + 1 ≡ suc (s + 1) = omega arith in
    rw next (take-drop_next s n xs (omega arith))

-- Columns that count up read a slice of the cache, and stay inside it.
counts_up-slice :
    (first k : ℕ) (cols : List ℕ) (vs : ValueStore)
    → length vs.cache < 2 ^ 32
    → first + k ≤ length vs.cache
    → counts_up first k cols ≡ true
    → ((col : ℕ) → member col cols ≡ true → col < length vs.cache)
    → (first + k + length cols ≤ length vs.cache)
      × (read_all cols vs ≡ take (length cols) (drop (first + k) vs.cache))
unfolding counts_up member get_by_dense
counts_up-slice first k [] vs small h up inside = (omega arith, refl)
counts_up-slice first k (c ∷ cols) vs small h up inside =
    let here : c < length vs.cache = inside c (ground arith) in
    let value : c ≡ u32 (first + u32 k) = ground arith in
    let at : c ≡ first + k = omega (arith, value) in
    let next : first + k + 1 ≡ first + (k + 1) = omega arith in
    let rest =
      counts_up-slice first (k + 1) cols vs small (omega arith) (ground arith)
        (λ col m. inside col (ground arith)) in
    (
      omega (arith, rest.0),
      rw at (
          ap (◌∷◌ (get_or vs.cache (first + k) neg))
            (rest.1 ∙ ap (λ (s : ℕ). take (length cols) (drop s vs.cache)) (sym next))
          ∙ sym (take-drop_next (first + k) (length cols) vs.cache (omega arith))),
    )

-- The word-parallel call is the rule on the slice.
eval_contiguous-eval :
    (region : CompiledRegion) (i first n : ℕ) (rule : ComputeRule) (vs : ValueStore)
    → PlanesMatch vs
    → first + n ≤ length vs.cache
    → gather region i vs ≡ take n (drop first vs.cache)
    → eval_contiguous region i first n rule vs ≡ eval rule (gather region i vs)
unfolding eval
eval_contiguous-eval region i first n meet_all_of vs planes fits e =
    rw e (ap some (ranges_lem vs planes first n fits).0)
eval_contiguous-eval region i first n join_any_of vs planes fits e =
    rw e (ap some (ranges_lem vs planes first n fits).1)
eval_contiguous-eval region i first n identity vs planes fits e = refl
eval_contiguous-eval region i first n mv_neg_of vs planes fits e = refl
eval_contiguous-eval region i first n mv_add_of vs planes fits e = refl
eval_contiguous-eval region i first n mv_mul_of vs planes fits e = refl
eval_contiguous-eval region i first n mv_sub_of vs planes fits e = refl
eval_contiguous-eval region i first n merge_of vs planes fits e = refl
eval_contiguous-eval region i first n bochvar_fold vs planes fits e = refl
eval_contiguous-eval region i first n power_product vs planes fits e = refl

-- On a store whose planes match the cache, a row of a built circuit that fits it has the result of its rule
-- on its gathered dependencies, whichever of its paths is taken.
pub eval_row-gather :
    (region : CompiledRegion) (i : ℕ) (vs : ValueStore)
    → IsCircuit (length vs.cache) region
    → IsBuilt region
    → PlanesMatch vs
    → i < length region.members
    → eval_row region i vs ≡ eval (rule_at region i) (gather region i vs)
unfolding eval_row
eval_row-gather region i vs c b planes h = elim (Option-cases (get_or region.contig_start i none)) [
  | inl scattered ↦ rw scattered refl
  | inr (first, e) ↦
      let (up, mem) = hinted_lem region i first b h (c.counted i h) e in
      let start : first + 0 ≡ first = omega arith in
      let (fits, slice_lem) =
        counts_up-slice first 0 (row_deps region i) vs c.small
          (omega (arith, c.deps_in i first h mem)) up (λ col m. c.deps_in i col h m) in
      let n = get_or region.dep_offsets (i + 1) 0 - get_or region.dep_offsets i 0 in
      let size : length (row_deps region i) ≡ n = c.counted i h in
      let short : u32 n ≡ n = omega (arith, size, fits, c.small) in
      rw (e, short)
        (eval_contiguous-eval region i first n (rule_at region i) vs planes
          (omega (arith, fits, size)) (slice_lem ∙ rw (size, start) refl))
]
