-- ===== src/Delta/Observe.antt =====
-- When a projection mask observes a delta.
use Prim.Native.String.{String}
use pgress.Prelude.{◌≡◌, ◌↔◌, inl, inr, arith, true, false, [], ◌∷◌, Bool-cases, ◌<◌}
use pgress.Prelude.Texts.{string_eq}
use pgress.Dims.{TimeDim, contains, intersects_iff}
use pgress.Delta.{
  AttrPathSet, has_path, any_path, is_wildcard, matches, ProjectionMask, Delta, affects,
  shape_visible,
}

-- Two path sets match if one of them is a wildcard or they share a path.
any_path-to :
    (s t : AttrPathSet)
    → any_path s t ≡ true
    → (p : String) × (has_path p s ≡ true) × (has_path p t ≡ true)
unfolding any_path has_path
any_path-to [] t h = ground arith
any_path-to (p ∷ s) t h = elim (Bool-cases (has_path p t)) [
  | inl e ↦ (p, ground (arith, string_eq.key_iff p p), e)
  | inr e ↦ let (q, a, b) = any_path-to s t (ground arith) in (q, ground arith, b)
]

any_path-from :
    (p : String) (s t : AttrPathSet)
    → has_path p s ≡ true
    → has_path p t ≡ true
    → any_path s t ≡ true
unfolding any_path has_path
any_path-from p [] t h k = ground arith
any_path-from p (q ∷ s) t h k = ground (arith, string_eq.key_iff q p, any_path-from p s t)

-- Two path sets that are no wildcards match exactly if they share a path, and so in either order.
pub matches_iff :
    (s t : AttrPathSet)
    → is_wildcard s ≡ false
    → is_wildcard t ≡ false
    → (matches s t ≡ true) ↔ ((p : String) × (has_path p s ≡ true) × (has_path p t ≡ true))
unfolding matches
matches_iff s t h k =
    (λ e. any_path-to s t (ground arith), λ (p, a, b). ground (arith, any_path-from p s t a b))

-- A mask over the five dimensions observes a delta exactly if they share a dimension, the paths match
-- and the shapes are visible to each other.
pub affects_iff :
    (mask : ProjectionMask) (delta : Delta)
    → mask.dims < 32
    → (affects mask delta ≡ true) ↔ (
        ((a : TimeDim) × (contains mask.dims a ≡ true) × (contains delta.dims a ≡ true))
        × (matches mask.attrs delta.attrs ≡ true)
        × (shape_visible mask.shape delta.shape ≡ true))
unfolding affects
affects_iff mask delta h =
    let met = intersects_iff mask.dims delta.dims h in
    (λ e. (met.0 (ground arith), ground arith, ground arith), λ (a, b, c). ground (arith, met.1 a))
