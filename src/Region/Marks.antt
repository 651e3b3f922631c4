-- ===== src/Region/Marks.antt =====
-- The row masks of core-rs/src/region.rs: raising and reading one digit, and the walk over the set
-- digits of a word.
use pgress.Prelude.{
  ℕ, zero, suc, ◌+◌, ◌-◌, ◌*◌, ◌/◌, ◌%◌, ◌^◌, ◌≤◌, ◌<◌, bit_and, ◌≡◌, refl, subst, ap, ◌∙◌, inl,
  inr, arith, true, false, List, [], ◌∷◌, length, get_or, eqb, Bool-cases, ==→eq, ne→==, nat_eq,
}
use pgress.Prelude.Bits.{bit, zero-bit}
use pgress.Prelude.Words.{bit_and-lt, bit-nonzero, bit-past}
use pgress.Prelude.Sorting.{member}
use pgress.Values.Planes.{Wide}
use pgress.Region.{CompiledRegion}
use pgress.Region.Index.{u32}
use pgress.Region.Run.{readers, push_word, push_words, initial_pending, trailing_zeros, zeros}
use pgress.Region.Digits.{
  On, raise_all-kept, length-raise_all, raise_all-On, clear_lowest, cleared_later,
}

module _ (region : CompiledRegion) where
  push_word-kept :
      (fuel wi w : ℕ) (pending : List ℕ) (e : ℕ)
      → On pending e
      → On (push_word region fuel wi w pending) e
  unfolding push_word
  push_word-kept zero wi w pending e on = on
  push_word-kept (suc fuel) wi w pending e on = elim (Bool-cases (eqb w 0)) [
    | inl done ↦ rw done on
    | inr more ↦ rw more (
        push_word-kept fuel wi (bit_and w (w - 1)) _ e
          (raise_all-kept (readers region (u32 (wi * 64 + trailing_zeros 64 w))) pending e on))
  ]

  length-push_word :
      (fuel wi w : ℕ) (pending : List ℕ)
      → length (push_word region fuel wi w pending) ≡ length pending
  unfolding push_word
  length-push_word zero wi w pending = refl
  length-push_word (suc fuel) wi w pending = elim (Bool-cases (eqb w 0)) [
    | inl done ↦ rw done refl
    | inr more ↦ rw more (
        length-push_word fuel wi (bit_and w (w - 1)) _
        ∙ length-raise_all (readers region (u32 (wi * 64 + trailing_zeros 64 w))) pending)
  ]

  push_word-On :
      (fuel wi w : ℕ) (pending : List ℕ) (i row : ℕ)
      → w < 2 ^ 64
      → ((j : ℕ) → bit w j ≡ 1 → 64 ≤ j + fuel)
      → bit w i ≡ 1
      → member row (readers region (u32 (wi * 64 + i))) ≡ true
      → row / 64 < length pending
      → On (push_word region fuel wi w pending) row
  unfolding push_word
  push_word-On zero wi w pending i row h left on m p =
      absurd (ground (arith, bit-past 64 w i h, left i on))
  push_word-On (suc fuel) wi w pending i row h left on m p =
      let ne = bit-nonzero w i on in
      let more : eqb w 0 ≡ false = ne→== w 0 ne in
      let t = trailing_zeros 64 w in
      rw more (elim (Bool-cases (eqb i t)) [
        | inl now ↦
            let at : i ≡ t = ==→eq i t now in
            push_word-kept fuel wi (bit_and w (w - 1)) _ row (
              raise_all-On (readers region (u32 (wi * 64 + t))) pending row
                (subst (λ (k : ℕ). member row (readers region (u32 (wi * 64 + k))) ≡ true) at m) p)
        | inr later ↦
            push_word-On fuel wi (bit_and w (w - 1)) _ i row (bit_and-lt 64 w (w - 1) h)
              (λ j. cleared_later 64 w j fuel h ne left) (clear_lowest 64 w i h ne ∙ rw later on) m
              (omega (arith, length-raise_all (readers region (u32 (wi * 64 + t))) pending))
      ])

  push_words-kept :
      (wi : ℕ) (words pending : List ℕ) (e : ℕ)
      → On pending e
      → On (push_words region wi words pending) e
  unfolding push_words
  push_words-kept wi [] pending e on = on
  push_words-kept wi (word ∷ words) pending e on =
      push_words-kept (wi + 1) words _ e (push_word-kept 64 wi word pending e on)

  length-push_words :
      (wi : ℕ) (words pending : List ℕ)
      → length (push_words region wi words pending) ≡ length pending
  unfolding push_words
  length-push_words wi [] pending = refl
  length-push_words wi (word ∷ words) pending =
      length-push_words (wi + 1) words _ ∙ length-push_word 64 wi word pending

  push_words-On :
      (wi : ℕ) (words pending : List ℕ) (k i row : ℕ)
      → Wide words
      → bit (get_or words k 0) i ≡ 1
      → member row (readers region (u32 ((wi + k) * 64 + i))) ≡ true
      → row / 64 < length pending
      → On (push_words region wi words pending) row
  unfolding push_words
  push_words-On wi [] pending k i row wide on m p = absurd (omega (arith, zero-bit i))
  push_words-On wi (word ∷ words) pending zero i row wide on m p =
      let back : wi + 0 ≡ wi = omega arith in
      push_words-kept (wi + 1) words _ row (
        push_word-On 64 wi word pending i row (wide 0) (λ j up. omega arith) on
          (subst (λ (k : ℕ). member row (readers region (u32 (k * 64 + i))) ≡ true) back m) p)
  push_words-On wi (word ∷ words) pending (suc k) i row wide on m p =
      let back : wi + suc k ≡ wi + 1 + k = omega arith in
      push_words-On (wi + 1) words _ k i row (λ j. wide (suc j)) on
        (subst (λ (k : ℕ). member row (readers region (u32 (k * 64 + i))) ≡ true) back m)
        (omega (arith, length-push_word 64 wi word pending))

  length-zeros : (n : ℕ) → length (zeros n) ≡ n
  length-zeros zero = refl
  length-zeros (suc n) = ap suc (length-zeros n)

  pub length-initial_pending :
      (dirty_slots : List ℕ)
      → length (initial_pending region dirty_slots) ≡ (length region.members + 63) / 64
  unfolding initial_pending
  length-initial_pending dirty_slots = length-push_words 0 dirty_slots _ ∙ length-zeros _

  -- Phase 1 puts every row on the mask that the index names for a dirty slot.
  pub initial_pending-On :
      (dirty_slots : List ℕ) (slot row : ℕ)
      → Wide dirty_slots
      → slot < 2 ^ 32
      → On dirty_slots slot
      → member row (readers region slot) ≡ true
      → row < length region.members
      → On (initial_pending region dirty_slots) row
  unfolding initial_pending
  initial_pending-On dirty_slots slot row wide h on m p =
      let whole : u32 ((0 + slot / 64) * 64 + slot % 64) ≡ slot = omega arith in
      push_words-On 0 dirty_slots _ (slot / 64) (slot % 64) row wide on (rw whole m)
        (omega (arith, length-zeros ((length region.members + 63) / 64)))
