-- ===== src/Values/Swar.antt =====
-- The word-parallel range operations of value_store.rs against the folds of ternary.rs on the slice
-- that they stand for.
use native.Mathlib.Nat.{pow-le-pow_right}
use pgress.Prelude.{
  ℕ, ◌+◌, ◌-◌, ◌*◌, ◌/◌, ◌%◌, ◌^◌, ◌≤◌, ◌<◌, min, max, bit_and, ◌≡◌, refl, sym, ap, ap₂, ◌∙◌, inl,
  inr, arith, false, List, ◌&&◌, ◌||◌, length, get_or, take, drop, ltb, leb, eqb, if◌then◌else◌,
  Bool-cases,
}
use pgress.Prelude.Bits.{bit, zero-bit, bit-le, bit-bit_and}
use pgress.Prelude.Words.{
  not64, shl64, max64, bit-ones, bit-shl, bit-mod, bit-not64, not64-lt, bit_and-lt, nonzero-bit,
  bit-nonzero,
}
use pgress.Ternary.{T, neg, pos, same, meet_all, join_any}
use pgress.Ternary.Algebra.{same_refl}
use pgress.Ternary.Fold.{one_if, folds_by_counts}
use pgress.Values.{
  ValueStore, words, get_by_dense, range_mask, neg_bits, pos_bits, zero_bits, tests, scan_words,
  meet_all_range, join_any_range,
}
use pgress.Values.Planes.{PlanesMatch, digit}
use pgress.Values.Extremum.{
  IsExtremum, IsExtremum-unique, Range, meet_slice-IsExtremum, join_slice-IsExtremum,
}
use pgress.Values.Scan.{TestsFor, none_yet, scan_words-IsExtremum}

bit-lo_mask :
    (lo i : ℕ)
    → i < 64
    → bit (if eqb lo 0 then max64 else shl64 max64 lo) i ≡ (if ltb i lo then 0 else 1)
bit-lo_mask lo i h = elim (Bool-cases (eqb lo 0)) [
  | inl none_cut ↦ rw none_cut (ground (arith, bit-ones 64 i))
  | inr cut ↦
      rw cut (
        bit-mod 64 (max64 * 2 ^ lo) i h ∙ bit-shl max64 lo i ∙ ground (arith, bit-ones 64 (i - lo)))
]

bit-hi_mask :
    (hi i : ℕ)
    → i < 64
    → hi ≤ 64
    → bit (if eqb hi 64 then max64 else shl64 1 hi - 1) i ≡ (if ltb i hi then 1 else 0)
bit-hi_mask hi i h p = elim (Bool-cases (eqb hi 64)) [
  | inl whole ↦ rw whole (ground (arith, bit-ones 64 i))
  | inr part ↦
      let small : hi ≤ 63 = ground arith in
      let fits : 2 ^ hi ≤ 2 ^ 63 = pow-le-pow_right (omega arith) small in
      let plain : shl64 1 hi ≡ 2 ^ hi = omega arith in rw (part, plain) (bit-ones hi i)
]

-- The mask of word `w` has the digits whose slots lie in the range, and no other.
bit-range_mask :
    (s e w i : ℕ)
    → i < 64
    → bit (range_mask s e w) i ≡ (if leb s (w * 64 + i) && ltb (w * 64 + i) e then 1 else 0)
unfolding range_mask
bit-range_mask s e w i h = elim (Bool-cases (leb (w * 64 + 64) s || leb e (w * 64))) [
  | inl apart ↦ rw (apart, zero-bit i) (ground arith)
  | inr meets ↦
      let lo = max s (w * 64) - w * 64 in
      let hi = min e (w * 64 + 64) - w * 64 in
      let within : hi ≤ 64 = omega arith in
      rw meets (
        bit-bit_and _ _ i ∙ ap₂ min (bit-lo_mask lo i h) (bit-hi_mask hi i h within) ∙ ground arith)
]

range_mask-lt : (s e w : ℕ) → range_mask s e w < 2 ^ 64
unfolding range_mask
range_mask-lt s e w = elim (Bool-cases (leb (w * 64 + 64) s || leb e (w * 64))) [
  | inl apart ↦ rw apart (omega arith)
  | inr meets ↦ rw meets (bit_and-lt 64 _ _ (ground arith))
]

-- A slot's digit, from its word and place.
digit_at : (plane : List ℕ) (w i : ℕ) → i < 64 → digit plane (w * 64 + i) ≡ bit (get_or plane w 0) i
digit_at plane w i h =
    let word : (w * 64 + i) / 64 ≡ w = omega arith in
    let place : (w * 64 + i) % 64 ≡ i = omega arith in rw (word, place)

module _ (vs : ValueStore) (m : PlanesMatch vs) where
  abbrev cell : ℕ → T
  cell d = get_by_dense d vs

  -- `bits` picks the slots under the mask that hold `t`.
  record Picks (t : T) (bits : ℕ → ℕ → ℕ) : Type 0 where
    fits : (mask w : ℕ) → mask < 2 ^ 64 → bits mask w < 2 ^ 64
    picks :
        (mask w i : ℕ)
        → mask < 2 ^ 64
        → i < 64
        → bit (bits mask w) i ≡ min (bit mask i) (one_if (same (cell (w * 64 + i)) t))

  -- The two digits of a slot, under the mask and complemented.
  module _ (mask w i : ℕ) (h : mask < 2 ^ 64) (p : i < 64) where
    abbrev p0m : ℕ
    p0m = bit_and (get_or vs.plane_p0 w 0) mask

    abbrev p1m : ℕ
    p1m = bit_and (get_or vs.plane_p1 w 0) mask

    bit-p0m : bit p0m i ≡ min (one_if (same (cell (w * 64 + i)) pos)) (bit mask i)
    bit-p0m =
        bit-bit_and _ mask i
        ∙ ap (λ (b : ℕ). min b (bit mask i))
            (sym (digit_at vs.plane_p0 w i p) ∙ m.marks_pos (w * 64 + i))

    bit-p1m : bit p1m i ≡ min (one_if (same (cell (w * 64 + i)) T.zero)) (bit mask i)
    bit-p1m =
        bit-bit_and _ mask i
        ∙ ap (λ (b : ℕ). min b (bit mask i))
            (sym (digit_at vs.plane_p1 w i p) ∙ m.marks_zero (w * 64 + i))

    bit-not_p0m : bit (not64 p0m) i ≡ 1 - bit p0m i
    bit-not_p0m = bit-not64 p0m i (bit_and-lt 64 _ _ (m.wide_p0 w)) p

    bit-not_p1m : bit (not64 p1m) i ≡ 1 - bit p1m i
    bit-not_p1m = bit-not64 p1m i (bit_and-lt 64 _ _ (m.wide_p1 w)) p

  neg_bits-Picks : Picks neg (neg_bits vs)
  unfolding neg_bits
  neg_bits-Picks = record {
    fits = λ mask w h. bit_and-lt 64 _ _ (bit_and-lt 64 _ _ (not64-lt _));
    picks = λ mask w i h p.
        bit-bit_and _ mask i
        ∙ ap (λ (b : ℕ). min b (bit mask i)) (bit-bit_and _ _ i)
        ∙ ground (
          arith,
          bit-p0m mask w i h p,
          bit-p1m mask w i h p,
          bit-not_p0m mask w i h p,
          bit-not_p1m mask w i h p,
          bit-le mask i,
        );
  }

  pos_bits-Picks : Picks pos (pos_bits vs)
  unfolding pos_bits
  pos_bits-Picks = record {
    fits = λ mask w h. bit_and-lt 64 _ _ (bit_and-lt 64 _ _ (m.wide_p0 w));
    picks = λ mask w i h p.
        bit-bit_and _ _ i
        ∙ ground (
          arith,
          bit-p0m mask w i h p,
          bit-p1m mask w i h p,
          bit-not_p1m mask w i h p,
          bit-le mask i,
        );
  }

  zero_bits-Picks : Picks T.zero (zero_bits vs)
  unfolding zero_bits
  zero_bits-Picks = record {
    fits = λ mask w h. bit_and-lt 64 _ _ (not64-lt _);
    picks = λ mask w i h p.
        bit-bit_and _ _ i
        ∙ ground (
          arith,
          bit-p0m mask w i h p,
          bit-p1m mask w i h p,
          bit-not_p0m mask w i h p,
          bit-le mask i,
        );
  }

  tests-TestsFor :
      (t : T) (bits : ℕ → ℕ → ℕ) (s e : ℕ) → Picks t bits → TestsFor t cell s e (tests bits s e)
  tests-TestsFor t bits s e k = record {
    sound = λ w up.
        let mask = range_mask s e w in
        let full = range_mask-lt s e w in
        let (i, p, b) = nonzero-bit (bits mask w) (k.fits mask w full) (ground arith) in
        (
          w * 64 + i,
          ground (arith, k.picks mask w i full p, bit-range_mask s e w i p),
          omega arith,
          omega arith,
          ground (arith, k.picks mask w i full p, bit-le mask i),
        );
    complete = λ w d down r lo hi same_value.
        let mask = range_mask s e w in
        let full = range_mask-lt s e w in
        let i = d - w * 64 in
        let p : i < 64 = omega arith in
        let back : w * 64 + i ≡ d = omega arith in
        let in_mask : bit mask i ≡ 1 = ground (arith, bit-range_mask s e w i p) in
        let held : cell (w * 64 + i) ≡ t = rw back same_value in
        let in_bits : bit (bits mask w) i ≡ 1 =
          k.picks mask w i full p ∙ rw (in_mask, held) (ground (arith, same_refl t)) in
        ground (arith, bit-nonzero mask i in_mask, bit-nonzero (bits mask w) i in_bits);
  }

  -- The words from the first one of the range on, as many as the range takes, cover it.
  scan-IsExtremum :
      (first last : T) (bits : ℕ → ℕ → ℕ) (s n : ℕ)
      → Picks first bits
      → s + n ≤ length vs.cache
      → IsExtremum first last cell (Range s (s + n)) (
          scan_words
            (tests bits s (s + n))
            (tests (zero_bits vs) s (s + n))
            first
            last
            (min (words (s + n)) (length vs.plane_p0) - s / 64)
            (s / 64)
            false)
  scan-IsExtremum first last bits s n k h =
      scan_words-IsExtremum first last cell s (s + n) _ _ (tests-TestsFor first bits s (s + n) k)
        (tests-TestsFor T.zero (zero_bits vs) s (s + n) zero_bits-Picks) _ (s / 64) false
        (omega (arith, m.size_p0)) (none_yet λ d i. absurd (omega arith))

  -- On a store whose planes match the cache, `meet_all_range` over slots inside it is `meet_all` of
  -- the slice of the cache, and `join_any_range` is `join_any` of it.
  pub ranges_lem :
      (s n : ℕ)
      → s + n ≤ length vs.cache
      → (meet_all_range vs s n ≡ meet_all (take n (drop s vs.cache)))
        × (join_any_range vs s n ≡ join_any (take n (drop s vs.cache)))
  unfolding meet_all_range join_any_range get_by_dense
  ranges_lem s n h = elim (Bool-cases (eqb n 0)) [
    | inl none_left ↦
        let gone : n ≡ 0 = ground arith in rw gone (unfold meet_all join_any in (refl, refl))
    | inr more ↦
        let folds = folds_by_counts (take n (drop s vs.cache)) in
        rw (more, folds.0, folds.1)
          (
            IsExtremum-unique neg pos cell (Range s (s + n)) _ _
                (scan-IsExtremum neg pos (neg_bits vs) s n neg_bits-Picks h)
                (meet_slice-IsExtremum vs.cache s n h),
            IsExtremum-unique pos neg cell (Range s (s + n)) _ _
                (scan-IsExtremum pos neg (pos_bits vs) s n pos_bits-Picks h)
                (join_slice-IsExtremum vs.cache s n h),
          )
  ]
