-- ===== src/Delta/Covers.antt =====
-- What `ProjectionMask::covers` promises.
use Prim.Native.String.{String}
use pgress.Prelude.{
  ◌≡◌, refl, arith, true, ◌||◌, [], ◌∷◌, Option, none, some, Bool-cases, ◌<◌, bit_and, ◌^◌, eqb_iff,
  inl, inr, ◌⊎◌, ◌≤◌, ◌+◌, ◌*◌, leb, subst,
}
use pgress.Prelude.Texts.{string_eq}
use pgress.Prelude.Bits.{bit, bit-bit_and, bit-le}
use pgress.Prelude.Words.{nonzero-bit, bit-nonzero, bit_and-lt}
use pgress.Dims.{
  TimeDim, TimeDimSet, identity, attribute, dependency, egraph, boundary, dim_bit, contains,
  contains-bit,
}
use pgress.Delta.{
  AttrPathSet, has_path, all_paths, is_wildcard, matches, ProjectionMask, Delta, affects, covers,
  shape_visible, shape_intersects, shape_contains, shape_covers, ShapeMask,
}
use pgress.Delta.Observe.{affects_iff, matches_iff}

all_paths-has :
    (p : String) (s t : AttrPathSet)
    → all_paths s t ≡ true
    → has_path p s ≡ true
    → has_path p t ≡ true
unfolding all_paths has_path
all_paths-has p [] t h k = ground arith
all_paths-has p (q ∷ s) t h k = ground (arith, string_eq.key_iff q p, all_paths-has p s t)

shape_contains-intersects :
    (x y s : ShapeMask)
    → x < 2 ^ 64
    → y < 2 ^ 64
    → shape_contains x y ≡ true
    → shape_intersects y s ≡ true
    → shape_intersects x s ≡ true
unfolding shape_contains shape_intersects
shape_contains-intersects x y s m n h k =
    let (i, p, e) = nonzero-bit (bit_and y s) (bit_and-lt 64 y s n) (ground arith) in
    ground (
      arith,
      bit-bit_and y s i,
      bit-bit_and x y i,
      bit-bit_and x s i,
      bit-le x i,
      bit-le s i,
      eqb_iff (bit_and x y) y,
      bit-nonzero (bit_and x s) i,
    )

shape_visible-covers :
    (a b : Option ShapeMask) (s : ShapeMask)
    → ((x : ShapeMask) → a ≡ some x → x < 2 ^ 64)
    → ((y : ShapeMask) → b ≡ some y → y < 2 ^ 64)
    → shape_covers a b ≡ true
    → shape_visible b s ≡ true
    → shape_visible a s ≡ true
shape_visible-covers none b s m n h k = refl
shape_visible-covers (some x) none s m n h k = ground arith
shape_visible-covers (some x) (some y) s m n h k =
    shape_contains-intersects x y s (m x refl) (n y refl) h k

matches-covers :
    (a b t : AttrPathSet)
    → (is_wildcard b ≡ true → is_wildcard a ≡ true)
    → (is_wildcard a || all_paths b a) ≡ true
    → matches b t ≡ true
    → matches a t ≡ true
matches-covers a b t n h k = elim (Bool-cases (is_wildcard a)) [
  | inl e ↦ unfold matches in rw e refl
  | inr e ↦ elim (Bool-cases (is_wildcard t)) [
    | inl f ↦ unfold matches in rw (e, f) refl
    | inr f ↦
        let (p, u, v) = (matches_iff b t (ground (arith, n, e)) f).0 k in
        (matches_iff a t e f).1 (p, all_paths-has p b a (ground arith) u, v)
  ]
]

-- The first mask has every dimension of the second.
abbrev Has : TimeDimSet → TimeDimSet → Type 0
Has s t = (dim : TimeDim) → contains t dim ≡ true → contains s dim ≡ true

bit-Has : (s t : TimeDimSet) (dim : TimeDim) → Has s t → bit t (dim_bit dim) ≤ bit s (dim_bit dim)
bit-Has s t dim h = ground (
  arith,
  contains-bit s dim,
  contains-bit t dim,
  bit-le s (dim_bit dim),
  bit-le t (dim_bit dim),
  h dim,
)

by_digits :
    (s : TimeDimSet) → s < 32 → s ≡ bit s 0 + 2 * bit s 1 + 4 * bit s 2 + 8 * bit s 3 + 16 * bit s 4
by_digits s h = omega arith

-- A mask of five digits that has all of another's dimensions is at least as great.
Has-le : (s t : TimeDimSet) → s < 32 → t < 32 → Has s t → t ≤ s
Has-le s t hs ht h = omega (
  arith,
  by_digits s hs,
  by_digits t ht,
  bit-Has s t identity h,
  bit-Has s t attribute h,
  bit-Has s t dependency h,
  bit-Has s t egraph h,
  bit-Has s t boundary h,
)

-- Where one of two masks has all of the other's dimensions, the greater one does.
nested-Has : (s t : TimeDimSet) → s < 32 → t < 32 → Has s t ⊎ Has t s → leb t s ≡ true → Has s t
nested-Has s t hs ht (inl h) le dim c = h dim c
nested-Has s t hs ht (inr h) le dim c =
    let same : t ≡ s = ground (arith, Has-le t s ht hs h) in
    subst (λ (k : TimeDimSet). contains k dim ≡ true) same c

-- Among masks over the five dimensions of which one has all of the other's dimensions, a mask that
-- covers another observes every delta that the other observes, if it has a wildcard of paths where
-- the other has one.
pub covers-affects :
    (a b : ProjectionMask) (delta : Delta)
    → a.dims < 32
    → b.dims < 32
    → ((x : ShapeMask) → a.shape ≡ some x → x < 2 ^ 64)
    → ((y : ShapeMask) → b.shape ≡ some y → y < 2 ^ 64)
    → ((dim : TimeDim) → contains b.dims dim ≡ true → contains a.dims dim ≡ true)
      ⊎ ((dim : TimeDim) → contains a.dims dim ≡ true → contains b.dims dim ≡ true)
    → (is_wildcard b.attrs ≡ true → is_wildcard a.attrs ≡ true)
    → covers a b ≡ true
    → affects b delta ≡ true
    → affects a delta ≡ true
unfolding covers
covers-affects a b delta ha hb sa sb nested paths h k =
    let dims = nested-Has a.dims b.dims ha hb nested (ground arith) in
    let ((dim, p, q), attrs, shape) = (affects_iff b delta hb).0 k in
    (affects_iff a delta ha).1 (
      (dim, dims dim p, q),
      matches-covers a.attrs b.attrs delta.attrs paths (ground arith) attrs,
      shape_visible-covers a.shape b.shape delta.shape sa sb (ground arith) shape,
    )
