-- ===== src/Values/Scan.antt =====
-- The loop of the range operations over the words, from what its two tests say of one word.
use pgress.Prelude.{
  ℕ, zero, suc, ◌+◌, ◌*◌, ◌≤◌, ◌<◌, ◌≡◌, ◌≢◌, refl, inl, inr, arith, Bool, true, false, ◌||◌, ltb,
  ltb→lt, Bool-cases,
}
use pgress.Ternary.{T}
use pgress.Values.{scan_words}
use pgress.Values.Extremum.{IsExtremum, found, mixed, clear, Range}

-- The test `hit` of word `w` says whether `t` occurs in the part of the range that `w` covers.
pub record TestsFor (t : T) (f : ℕ → T) (s e : ℕ) (hit : ℕ → Bool) : Type 0 where
  pub sound :
      (w : ℕ) → hit w ≡ true → (d : ℕ) × Range s e d × (w * 64 ≤ d) × (d < w * 64 + 64) × (f d ≡ t)
  pub complete : (w d : ℕ) → hit w ≡ false → Range s e d → w * 64 ≤ d → d < w * 64 + 64 → f d ≢ t

-- The part of the range before word `w`.
abbrev pub Before : ℕ → ℕ → ℕ → ℕ → Type 0
Before s e w d = Range s e d × (d < w * 64)

-- What the loop knows on entering word `w`: no `first` so far, and whether a zero was seen.
pub data Seen (first : T) (f : ℕ → T) (s e w : ℕ) : Bool → Type 0 where
  none_yet : ((d : ℕ) → Before s e w d → (f d ≢ first) × (f d ≢ T.zero)) → Seen first f s e w false
  a_zero :
      (d : ℕ)
      → Before s e w d
      → f d ≡ T.zero
      → ((c : ℕ) → Before s e w c → f c ≢ first)
      → Seen first f s e w true

module _ (first last : T) (f : ℕ → T) (s e : ℕ) (hit zeroes : ℕ → Bool)
    (hits : TestsFor first f s e hit) (marks : TestsFor T.zero f s e zeroes) where
  -- A place before the next word is before this one or in it.
  none-Before_next :
      (t : T) (test : ℕ → Bool)
      → TestsFor t f s e test
      → (w : ℕ) → test w ≡ false
      → ((c : ℕ) → Before s e w c → f c ≢ t)
      → (c : ℕ) → Before s e (w + 1) c
      → f c ≢ t
  none-Before_next t test spec w miss none c i = elim (Bool-cases (ltb c (w * 64))) [
    | inl early ↦ none c (i.0, ltb→lt c (w * 64) early)
    | inr here ↦ spec.complete w c miss i.0 (ground arith) (omega arith)
  ]

  Seen-next :
      (w : ℕ) (has_zero : Bool)
      → hit w ≡ false
      → Seen first f s e w has_zero
      → Seen first f s e (w + 1) (has_zero || zeroes w)
  Seen-next w true miss (a_zero d i p n) =
      a_zero d (i.0, omega arith) p (none-Before_next first hit hits w miss n)
  Seen-next w false miss (none_yet n) =
      let no_first = none-Before_next first hit hits w miss (λ c i. (n c i).0) in
      elim (Bool-cases (zeroes w)) [
        | inl seen ↦
            let (d, i, lo, hi, p) = marks.sound w seen in
            rw seen (a_zero d (i, omega arith) p no_first)
        | inr clean ↦
            let no_zero = none-Before_next T.zero zeroes marks w clean (λ c i. (n c i).1) in
            rw clean (none_yet λ c i. (no_first c i, no_zero c i))
      ]

  pub scan_words-IsExtremum :
      (rounds w : ℕ) (has_zero : Bool)
      → e ≤ (w + rounds) * 64
      → Seen first f s e w has_zero
      → IsExtremum first last f (Range s e) (scan_words hit zeroes first last rounds w has_zero)
  unfolding scan_words
  scan_words-IsExtremum zero w false h (none_yet n) = clear (λ c i. n c (i, omega arith)) refl
  scan_words-IsExtremum zero w true h (a_zero d i p n) =
      mixed d i.0 p (λ c j. n c (j, omega arith)) refl
  scan_words-IsExtremum (suc rounds) w has_zero h seen = elim (Bool-cases (hit w)) [
    | inl now ↦ let (d, i, lo, hi, p) = hits.sound w now in rw now (found d i p refl)
    | inr miss ↦ rw miss (
        scan_words-IsExtremum rounds (w + 1) (has_zero || zeroes w) (omega arith)
          (Seen-next w has_zero miss seen))
  ]
