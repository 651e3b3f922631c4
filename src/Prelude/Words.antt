-- ===== src/Prelude/Words.antt =====
-- 64-bit words: complement and shifts as the source's `u64` has them, digit by digit.
use Prim.Native.Nat.{bit_and-bitwise, bit_or-bitwise}
use native.Mathlib.Nat.{mod-lt, pow-suc, one-le-pow}
use pgress.Prelude.{
  ℕ, zero, suc, ◌+◌, ◌-◌, ◌*◌, ◌/◌, ◌%◌, ◌^◌, ◌≤◌, ◌<◌, bit_and, bit_or, ◌≡◌, refl, ap, sym, subst,
  ◌≢◌, ◌∙◌, inl, inr, Bool-cases, arith, ltb, eqb, if◌then◌else◌,
}
use pgress.Prelude.Bits.{bit, zero-bit, bit_and_lowest, bit_or_lowest}

-- `!x`, `x << k` and `x >> k` on words of 64 digits.
abbrev pub not64 : ℕ → ℕ
not64 x = 2 ^ 64 - 1 - x

abbrev pub shl64 : ℕ → ℕ → ℕ
shl64 x k = x * 2 ^ k % 2 ^ 64

abbrev pub shr : ℕ → ℕ → ℕ
shr x k = x / 2 ^ k

-- `u64::MAX`.
abbrev pub max64 : ℕ
max64 = 2 ^ 64 - 1

-- `x += 1` and `x + y` on `u64` and `u32`, which wrap in a release build.
abbrev pub inc64 : ℕ → ℕ
inc64 x = (x + 1) % 2 ^ 64

abbrev pub add32 : ℕ → ℕ → ℕ
add32 x y = (x + y) % 2 ^ 32

pub bit-ones_minus :
    (w x i : ℕ) → x < 2 ^ w → bit (2 ^ w - 1 - x) i ≡ (if ltb i w then 1 - bit x i else 0)
bit-ones_minus zero x i h =
    let z : 2 ^ 0 - 1 - x ≡ 0 = omega arith in rw z (rw (zero-bit i) (ground arith))
bit-ones_minus (suc w) x zero h = ground (arith, pow-suc 2 w)
bit-ones_minus (suc w) x (suc i) h =
    let half : (2 ^ suc w - 1 - x) / 2 ≡ 2 ^ w - 1 - x / 2 = omega (arith, pow-suc 2 w) in
    rw half (ground (arith, bit-ones_minus w (x / 2) i (omega (arith, pow-suc 2 w))))

pub bit-ones : (w i : ℕ) → bit (2 ^ w - 1) i ≡ (if ltb i w then 1 else 0)
bit-ones w i = ground (arith, bit-ones_minus w 0 i (one-le-pow w 2 (omega arith)), zero-bit i)

pub bit-past : (w x i : ℕ) → x < 2 ^ w → w ≤ i → bit x i ≡ 0
bit-past zero x i h p = let z : x ≡ 0 = omega arith in rw z (zero-bit i)
bit-past (suc w) x zero h p = absurd (omega arith)
bit-past (suc w) x (suc i) h p = bit-past w (x / 2) i (omega (arith, pow-suc 2 w)) (omega arith)

pub bit-shl : (x k i : ℕ) → bit (x * 2 ^ k) i ≡ (if ltb i k then 0 else bit x (i - k))
bit-shl x zero i = let one : x * 2 ^ 0 ≡ x = omega arith in rw one (ground arith)
bit-shl x (suc k) zero = ground (arith, ap (λ (t : ℕ). x * t) (pow-suc 2 k))
bit-shl x (suc k) (suc i) =
    let half : x * 2 ^ suc k / 2 ≡ x * 2 ^ k = omega (arith, ap (λ (t : ℕ). x * t) (pow-suc 2 k)) in
    rw half (ground (arith, bit-shl x k i))

-- The digits below `w` of a number are those of its remainder.
bit_fields : (w q r i : ℕ) → r < 2 ^ w → i < w → bit (q * 2 ^ w + r) i ≡ bit r i
bit_fields zero q r i h p = absurd (omega arith)
bit_fields (suc w) q r zero h p = omega (arith, ap (λ (t : ℕ). q * t) (pow-suc 2 w))
bit_fields (suc w) q r (suc i) h p =
    let half : (q * 2 ^ suc w + r) / 2 ≡ q * 2 ^ w + r / 2 =
      omega (arith, ap (λ (t : ℕ). q * t) (pow-suc 2 w)) in
    rw half (bit_fields w q (r / 2) i (omega (arith, pow-suc 2 w)) (omega arith))

pub bit-mod : (w x i : ℕ) → i < w → bit (x % 2 ^ w) i ≡ bit x i
bit-mod w x i h =
    let pos : 0 < 2 ^ w = one-le-pow w 2 (omega arith) in
    let whole : x / 2 ^ w * 2 ^ w + x % 2 ^ w ≡ x = omega arith in
    sym (
      subst (λ (y : ℕ). bit y i ≡ bit (x % 2 ^ w) i) whole
        (bit_fields w (x / 2 ^ w) (x % 2 ^ w) i (mod-lt x pos) h))

one-bit : (i : ℕ) → bit 1 i ≡ (if eqb i 0 then 1 else 0)
one-bit zero = refl
one-bit (suc i) = rw (zero-bit i) (ground arith)

-- `1u64 << k`.
pub bit-shl64_one : (k i : ℕ) → i < 64 → bit (shl64 1 k) i ≡ (if eqb i k then 1 else 0)
bit-shl64_one k i h = bit-mod 64 (1 * 2 ^ k) i h ∙ bit-shl 1 k i ∙ ground (arith, one-bit (i - k))

pub bit-not64 : (x i : ℕ) → x < 2 ^ 64 → i < 64 → bit (not64 x) i ≡ 1 - bit x i
bit-not64 x i h p = bit-ones_minus 64 x i h ∙ ground arith

pub not64-lt : (x : ℕ) → not64 x < 2 ^ 64
not64-lt x = omega arith

-- A word other than 0 has a digit 1, and a word that is 0 has none.
nonzero-bit_below : (n x : ℕ) → x ≤ n → x ≢ 0 → (i : ℕ) × (bit x i ≡ 1)
nonzero-bit_below zero x p ne = absurd (ne (omega arith))
nonzero-bit_below (suc n) x p ne = elim (Bool-cases (eqb (x % 2) 1)) [
  | inl odd ↦ (0, ground arith)
  | inr even ↦ let (i, e) = nonzero-bit_below n (x / 2) (omega arith) (ground arith) in (suc i, e)
]

pub nonzero-bit : (x : ℕ) → x < 2 ^ 64 → x ≢ 0 → (i : ℕ) × (i < 64) × (bit x i ≡ 1)
nonzero-bit x h ne =
    let (i, e) = nonzero-bit_below x x (omega arith) ne in (i, ground (arith, bit-past 64 x i h), e)

pub bit-nonzero : (x i : ℕ) → bit x i ≡ 1 → x ≢ 0
bit-nonzero x i e z = let none_set : bit x i ≡ 0 = rw z (zero-bit i) in omega (arith, e, none_set)

-- `bit_and` and `bit_or` stay within the word.
pub bit_and-lt : (w a b : ℕ) → a < 2 ^ w → bit_and a b < 2 ^ w
bit_and-lt zero a b h = let z : a ≡ 0 = omega arith in rw z (omega (arith, bit_and-bitwise 0 b))
bit_and-lt (suc w) a b h = omega (
  arith,
  bit_and_lowest a b,
  pow-suc 2 w,
  bit_and-lt w (a / 2) (b / 2) (omega (arith, pow-suc 2 w)),
)

pub bit_or-lt : (w a b : ℕ) → a < 2 ^ w → b < 2 ^ w → bit_or a b < 2 ^ w
bit_or-lt zero a b h p =
    let za : a ≡ 0 = omega arith in
    let zb : b ≡ 0 = omega arith in rw (za, zb) (omega (arith, bit_or-bitwise 0 0))
bit_or-lt (suc w) a b h p = omega (
  arith,
  bit_or_lowest a b,
  pow-suc 2 w,
  bit_or-lt w (a / 2) (b / 2) (omega (arith, pow-suc 2 w)) (omega (arith, pow-suc 2 w)),
)
