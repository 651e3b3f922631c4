-- ===== src/Region/Digits.antt =====
-- Raising and reading one digit of the masks of core-rs/src/region.rs, and the lowest set digit of a
-- word.
use native.Mathlib.Nat.{pow-suc, div-div-eq-div-mul, mul_comm}
use pgress.Prelude.{
  ℕ, zero, suc, ◌+◌, ◌-◌, ◌/◌, ◌%◌, ◌^◌, ◌≤◌, ◌<◌, bit_and, bit_or, ◌≡◌, ◌≢◌, refl, subst, ap, ◌∙◌,
  inl, inr, arith, true, List, [], ◌∷◌, length, get_or, set, length-set, eqb, ltb, if◌then◌else◌,
  Bool-cases, nat_eq,
}
use pgress.Prelude.Bits.{bit, bit-le, bit-bit_and, bit-bit_or, bit_and-one, bit_and_lowest}
use pgress.Prelude.Words.{shl64, shr, bit-shl64_one}
use pgress.Prelude.Sorting.{member}
use pgress.Values.{write_bit}
use pgress.Values.Planes.{digit, digit-set}
use pgress.Region.Run.{raise, is_raised, raise_all, trailing_zeros}

-- A row or slot is on the mask.
abbrev pub On : List ℕ → ℕ → Type 0
On plane i = digit plane i ≡ 1

bit-shr : (x k : ℕ) → bit x k ≡ shr x k % 2
bit-shr x zero = omega arith
bit-shr x (suc k) =
    bit-shr (x / 2) k
    ∙ ap (λ (t : ℕ). t % 2)
        (div-div-eq-div-mul x 2 (2 ^ k)
          ∙ rw (pow-suc 2 k) (ap (λ (t : ℕ). x / t) (mul_comm 2 (2 ^ k))))

pub is_raised_iff : (i : ℕ) (plane : List ℕ) → is_raised i plane ≡ eqb (digit plane i) 1
unfolding is_raised
is_raised_iff i plane =
    rw (bit_and-one (shr (get_or plane (i / 64) 0) (i % 64)))
      (ground (arith, bit-shr (get_or plane (i / 64) 0) (i % 64)))

pub length-raise : (d : ℕ) (plane : List ℕ) → length (raise d plane) ≡ length plane
unfolding raise write_bit
length-raise d plane = length-set plane (d / 64) _

pub On-raise : (d : ℕ) (plane : List ℕ) → d / 64 < length plane → On (raise d plane) d
unfolding raise write_bit
On-raise d plane h =
    let x = get_or plane (d / 64) 0 in
    let mask = shl64 1 (d % 64) in
    digit-set d d 1 plane (bit_or x mask) h
      (λ i p. ground (arith, bit-bit_or x mask i, bit-shl64_one (d % 64) i p, bit-le x i))
    ∙ ground arith

set-past : (plane : List ℕ) (i v : ℕ) → length plane ≤ i → set plane i v ≡ plane
set-past [] i v h = refl
set-past (x ∷ plane) zero v h = absurd (omega arith)
set-past (x ∷ plane) (suc i) v h = ap (◌∷◌ x) (set-past plane i v (omega arith))

pub On-raise_kept : (d e : ℕ) (plane : List ℕ) → On plane e → On (raise d plane) e
unfolding raise write_bit
On-raise_kept d e plane on = elim (Bool-cases (ltb (d / 64) (length plane))) [
  | inl inside ↦
      let x = get_or plane (d / 64) 0 in
      let mask = shl64 1 (d % 64) in
      digit-set d e 1 plane (bit_or x mask) (ground arith)
        (λ i p. ground (arith, bit-bit_or x mask i, bit-shl64_one (d % 64) i p, bit-le x i))
      ∙ ground arith
  | inr past ↦ rw (set-past plane (d / 64) _ (ground arith)) on
]

pub raise_all-kept : (rows pending : List ℕ) (e : ℕ) → On pending e → On (raise_all rows pending) e
raise_all-kept [] pending e on = on
raise_all-kept (row ∷ rows) pending e on =
    raise_all-kept rows (raise row pending) e (On-raise_kept row e pending on)

pub length-raise_all : (rows pending : List ℕ) → length (raise_all rows pending) ≡ length pending
length-raise_all [] pending = refl
length-raise_all (row ∷ rows) pending =
    length-raise_all rows (raise row pending) ∙ length-raise row pending

pub raise_all-On :
    (rows pending : List ℕ) (e : ℕ)
    → member e rows ≡ true
    → e / 64 < length pending
    → On (raise_all rows pending) e
unfolding member
raise_all-On [] pending e m h = cc
raise_all-On (row ∷ rows) pending e m h = elim (Bool-cases (eqb row e)) [
  | inl hit ↦
      let same_row : row ≡ e = ground arith in
      raise_all-kept rows (raise row pending) e
        (subst (λ (r : ℕ). On (raise row pending) r) same_row (On-raise row pending (omega arith)))
  | inr miss ↦
      raise_all-On rows (raise row pending) e (ground arith)
        (omega (arith, length-raise row pending))
]

-- Clearing the lowest digit of a word.
pub clear_lowest :
    (digits w i : ℕ)
    → w < 2 ^ digits
    → w ≢ 0
    → bit (bit_and w (w - 1)) i ≡ (if eqb i (trailing_zeros digits w) then 0 else bit w i)
unfolding trailing_zeros
clear_lowest zero w i h ne = absurd (ne (omega arith))
clear_lowest (suc digits) w zero h ne = elim (Bool-cases (eqb (w % 2) 1)) [
  | inl odd ↦ rw odd (omega (arith, bit_and_lowest w (w - 1)))
  | inr even ↦ rw even (ground (arith, bit_and_lowest w (w - 1)))
]
clear_lowest (suc digits) w (suc i) h ne =
    let half : bit_and w (w - 1) / 2 ≡ bit_and (w / 2) ((w - 1) / 2) =
      omega (arith, bit_and_lowest w (w - 1)) in
    elim (Bool-cases (eqb (w % 2) 1)) [
      | inl odd ↦
          let below : (w - 1) / 2 ≡ w / 2 = ground arith in
          rw (half, below, odd) (ground (arith, bit-bit_and (w / 2) (w / 2) i))
      | inr even ↦
          let below : (w - 1) / 2 ≡ w / 2 - 1 = ground arith in
          let ih = clear_lowest digits (w / 2) i (omega (arith, pow-suc 2 digits)) (ground arith) in
          rw (half, below, even) (ih ∙ ground arith)
    ]

lowest :
    (digits w : ℕ)
    → w < 2 ^ digits
    → w ≢ 0
    → (trailing_zeros digits w < digits) × (bit w (trailing_zeros digits w) ≡ 1)
unfolding trailing_zeros
lowest zero w h ne = absurd (ne (omega arith))
lowest (suc digits) w h ne = elim (Bool-cases (eqb (w % 2) 1)) [
  | inl odd ↦ rw odd (omega arith, ground arith)
  | inr even ↦
      let (b, on) = lowest digits (w / 2) (omega (arith, pow-suc 2 digits)) (ground arith) in
      rw even (omega arith, on)
]

lowest_first : (digits w i : ℕ) → w < 2 ^ digits → bit w i ≡ 1 → trailing_zeros digits w ≤ i
unfolding trailing_zeros
lowest_first zero w i h on = omega arith
lowest_first (suc digits) w zero h on =
    let odd : eqb (w % 2) 1 ≡ true = ground arith in rw odd (omega arith)
lowest_first (suc digits) w (suc i) h on =
    ground (arith, lowest_first digits (w / 2) i (omega (arith, pow-suc 2 digits)) on)

-- The digits that are left after a round stand further up.
pub cleared_later :
    (digits w j fuel : ℕ)
    → w < 2 ^ digits
    → w ≢ 0
    → ((i : ℕ) → bit w i ≡ 1 → digits ≤ i + suc fuel)
    → bit (bit_and w (w - 1)) j ≡ 1
    → digits ≤ j + fuel
cleared_later digits w j fuel h ne left up =
    let cleared = clear_lowest digits w j h ne in
    let t = trailing_zeros digits w in
    let bound : digits ≤ t + suc fuel = left t (lowest digits w h ne).1 in
    elim (Bool-cases (eqb j t)) [
      | inl now ↦ absurd (ground (arith, cleared))
      | inr later ↦
          let was : bit w j ≡ 1 = ground (arith, cleared) in
          let first = lowest_first digits w j h was in ground arith
    ]
