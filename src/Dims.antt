-- ===== src/Dims.antt =====
-- The dimensions of core-rs/src/time.rs, `TimeDim`, and the bit mask `TimeDimSet` over them.
use pgress.Prelude.{
  ℕ, ◌/◌, ◌^◌, ◌<◌, bit_and, bit_or, ◌≡◌, refl, arith, Bool, true, not, ◌||◌, eqb, if◌then◌else◌,
  suc, zero, ◌↔◌,
}
use pgress.Prelude.Bits.{bit, bit-le, bit-bit_and, bit-bit_or, bit_and-one}
use pgress.Prelude.Words.{shr, nonzero-bit, bit-nonzero, bit-past, bit_and-lt}

pub data TimeDim : Type 0 where
  identity attribute dependency egraph boundary : TimeDim

-- `dim as u8`.
abbrev pub dim_bit : TimeDim → ℕ
dim_bit identity = 0
dim_bit attribute = 1
dim_bit dependency = 2
dim_bit egraph = 3
dim_bit boundary = 4

-- The derived `PartialEq`.
abbrev pub same_dim : TimeDim → TimeDim → Bool
same_dim a b = eqb (dim_bit a) (dim_bit b)

-- The `u8` of a `TimeDimSet`.
abbrev pub TimeDimSet : Type 0
TimeDimSet = ℕ

abbrev pub all_dims : TimeDimSet
all_dims = 0b11111

unfoldable pub contains : TimeDimSet → TimeDim → Bool
contains s dim = eqb (bit_and (shr s (dim_bit dim)) 1) 1

unfoldable pub intersects : TimeDimSet → TimeDimSet → Bool
intersects s t = not (eqb (bit_and s t) 0)

unfoldable pub union : TimeDimSet → TimeDimSet → TimeDimSet
union s t = bit_or s t

-- `1 << dim as u8` is at most 16, so no bit is lost.
unfoldable pub insert_dim : TimeDimSet → TimeDim → TimeDimSet
insert_dim s dim = bit_or s (2 ^ dim_bit dim)

pub contains-bit : (s : TimeDimSet) (dim : TimeDim) → contains s dim ≡ eqb (bit s (dim_bit dim)) 1
unfolding contains
contains-bit s identity = ground (arith, bit_and-one (s / 2 ^ 0))
contains-bit s attribute = ground (arith, bit_and-one (s / 2 ^ 1))
contains-bit s dependency = ground (arith, bit_and-one (s / 2 ^ 2))
contains-bit s egraph = ground (arith, bit_and-one (s / 2 ^ 3))
contains-bit s boundary = ground (arith, bit_and-one (s / 2 ^ 4))

power_bit : (a b : TimeDim) → bit (2 ^ dim_bit b) (dim_bit a) ≡ (if same_dim a b then 1 else 0)
power_bit identity b = ground arith
power_bit attribute b = ground arith
power_bit dependency b = ground arith
power_bit egraph b = ground arith
power_bit boundary b = ground arith

-- A mask holds what either of two masks holds after `union`, the inserted dimension and the old ones
-- after `insert`, and each of the five dimensions if it is `ALL`.
pub contains_laws :
    (s t : TimeDimSet) (a b : TimeDim)
    → (contains (union s t) a ≡ (contains s a || contains t a))
      × (contains (insert_dim s b) a ≡ (same_dim a b || contains s a))
      × (contains all_dims a ≡ true)
unfolding union insert_dim
contains_laws s t a b =
    let k = dim_bit a in
    (
      rw (contains-bit (bit_or s t) a, contains-bit s a, contains-bit t a)
          (ground (arith, bit-bit_or s t k, bit-le s k, bit-le t k)),
      rw (contains-bit (bit_or s (2 ^ dim_bit b)) a, contains-bit s a)
          (ground (arith, bit-bit_or s (2 ^ dim_bit b) k, bit-le s k, power_bit a b)),
      rw (contains-bit all_dims a) (ground arith),
    )

dim_of : (i : ℕ) → i < 5 → (a : TimeDim) × (dim_bit a ≡ i)
dim_of zero h = (identity, refl)
dim_of (suc zero) h = (attribute, refl)
dim_of (suc (suc zero)) h = (dependency, refl)
dim_of (suc (suc (suc zero))) h = (egraph, refl)
dim_of (suc (suc (suc (suc zero)))) h = (boundary, refl)
dim_of (suc (suc (suc (suc (suc i))))) h = absurd (omega arith)

-- Two masks of five digits intersect exactly if they share a dimension.
pub intersects_iff :
    (s t : TimeDimSet)
    → s < 32
    → (intersects s t ≡ true) ↔ ((a : TimeDim) × (contains s a ≡ true) × (contains t a ≡ true))
unfolding intersects
intersects_iff s t h = (
  λ met.
      let small : bit_and s t < 2 ^ 5 = bit_and-lt 5 s t h in
      let (i, p, e) = nonzero-bit (bit_and s t) (omega arith) (ground arith) in
      let low : i < 5 = ground (arith, bit-past 5 (bit_and s t) i small) in
      let (a, at) = dim_of i low in
      let both = bit-bit_and s t i in
      (
        a,
        rw (contains-bit s a, at) (ground (arith, bit-le s i)),
        rw (contains-bit t a, at) (ground (arith, bit-le t i)),
      ),
  λ (a, p, q). ground (
    arith,
    contains-bit s a,
    contains-bit t a,
    bit-bit_and s t (dim_bit a),
    bit-nonzero (bit_and s t) (dim_bit a),
  ),
)
