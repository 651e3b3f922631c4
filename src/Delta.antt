-- ===== src/Delta.antt =====
-- What a change touches and what a dependency observes: core-rs/src/delta.rs. An attribute path set
-- is the list of the paths in its `BTreeSet`; only membership is asked of it.
pub mod Observe
pub mod Covers
use Prim.Native.String.{String}
use pgress.Prelude.{
  ℕ, bit_and, bit_or, Bool, true, false, not, ◌&&◌, ◌||◌, List, [], ◌∷◌, Option, none, some, eqb,
  leb, ◌==◌, if◌then◌else◌,
}
use pgress.Prelude.Texts.{string_eq}
use pgress.Dims.{TimeDimSet, intersects, union, all_dims}

-- The `u8` of a `ShapeMask`.
abbrev pub ShapeMask : Type 0
ShapeMask = ℕ

abbrev pub shape_none : ShapeMask
shape_none = 0b000

abbrev pub shape_eclass : ShapeMask
shape_eclass = 0b001

abbrev pub shape_persistence : ShapeMask
shape_persistence = 0b010

abbrev pub shape_emitted : ShapeMask
shape_emitted = 0b100

unfoldable pub shape_intersects : ShapeMask → ShapeMask → Bool
shape_intersects a b = not (eqb (bit_and a b) 0)

unfoldable pub shape_contains : ShapeMask → ShapeMask → Bool
shape_contains a b = eqb (bit_and a b) b

unfoldable pub shape_union : ShapeMask → ShapeMask → ShapeMask
shape_union a b = bit_or a b

abbrev pub AttrPathSet : Type 0
AttrPathSet = List String

unfoldable pub has_path : String → AttrPathSet → Bool
has_path p [] = false
has_path p (q ∷ s) = q == p || has_path p s

unfoldable pub insert_path : String → AttrPathSet → AttrPathSet
unfolding has_path
insert_path p s = if has_path p s then s else p ∷ s

abbrev pub is_wildcard : AttrPathSet → Bool
is_wildcard [] = true
is_wildcard (p ∷ s) = false

-- `self.0.iter().any(|p| delta_attrs.0.contains(p))`.
unfoldable pub any_path : AttrPathSet → AttrPathSet → Bool
unfolding has_path
any_path [] t = false
any_path (p ∷ s) t = has_path p t || any_path s t

unfoldable pub matches : AttrPathSet → AttrPathSet → Bool
unfolding any_path
matches s t = if is_wildcard s then true else if is_wildcard t then true else any_path s t

-- `other.attrs.0.iter().all(|p| self.attrs.contains(p))`.
unfoldable pub all_paths : AttrPathSet → AttrPathSet → Bool
unfolding has_path
all_paths [] t = true
all_paths (p ∷ s) t = has_path p t && all_paths s t

pub record ProjectionMask : Type 0 where
  pub dims : TimeDimSet
  pub attrs : AttrPathSet
  pub shape : Option ShapeMask

pub record Delta : Type 0 where
  pub uid : ℕ
  pub dims : TimeDimSet
  pub attrs : AttrPathSet
  pub shape : ShapeMask

-- `ProjectionMask::wildcard`, `attribute_only`, `structural` and `boundary`.
abbrev pub wildcard_mask : ProjectionMask
wildcard_mask = record { dims = all_dims; attrs = []; shape = none }

abbrev pub attribute_mask : ProjectionMask
attribute_mask = record { dims = 0b00010; attrs = []; shape = none }

abbrev pub structural_mask : ProjectionMask
structural_mask = record { dims = 0b00101; attrs = []; shape = some shape_persistence }

abbrev pub boundary_mask : ProjectionMask
boundary_mask = record { dims = 0b10000; attrs = []; shape = some shape_emitted }

-- The constructors of `Delta`.
abbrev pub attribute_delta : ℕ → Delta
attribute_delta uid = record { uid = uid; dims = 0b00010; attrs = []; shape = shape_none }

abbrev pub path_delta : ℕ → String → Delta
path_delta uid path = record { uid = uid; dims = 0b00010; attrs = path ∷ []; shape = shape_none }

abbrev pub structural_delta : ℕ → Delta
structural_delta uid = record { uid = uid; dims = 0b00001; attrs = []; shape = shape_persistence }

abbrev pub dependency_delta : ℕ → Delta
dependency_delta uid = record { uid = uid; dims = 0b00100; attrs = []; shape = shape_persistence }

abbrev pub egraph_delta : ℕ → Delta
egraph_delta uid = record { uid = uid; dims = 0b01000; attrs = []; shape = shape_eclass }

abbrev pub boundary_delta : ℕ → Delta
boundary_delta uid = record { uid = uid; dims = 0b10000; attrs = []; shape = shape_emitted }

abbrev pub shape_visible : Option ShapeMask → ShapeMask → Bool
shape_visible none s = true
shape_visible (some mask) s = shape_intersects mask s

unfoldable pub affects : ProjectionMask → Delta → Bool
unfolding intersects matches shape_intersects
affects mask delta =
    if not (intersects mask.dims delta.dims)
    then false
    else if not (matches mask.attrs delta.attrs)
    then false
    else if not (shape_visible mask.shape delta.shape)
    then false
    else true

abbrev pub shape_covers : Option ShapeMask → Option ShapeMask → Bool
shape_covers none _ = true
shape_covers (some a) none = false
shape_covers (some a) (some b) = shape_contains a b

unfoldable pub covers : ProjectionMask → ProjectionMask → Bool
unfolding all_paths shape_contains
covers a b =
    leb b.dims a.dims
    && (is_wildcard a.attrs || all_paths b.attrs a.attrs)
    && shape_covers a.shape b.shape
