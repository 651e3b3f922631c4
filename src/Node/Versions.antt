-- ===== src/Node/Versions.antt =====
-- Versions of a node: `Node::set_value`, `reflect_attrs` and `reflect`.
use pgress.Prelude.{◌≡◌, refl, ap, ◌↔◌, ◌+◌, ◌<◌, ◌^◌, arith, if◌then◌else◌, inl, inr, Bool-cases}
use Prim.Native.String.{String}
use mathlib.Core.Option
use pgress.Prelude.Texts.{string_eq}
use pgress.Ternary.{T, same}
use pgress.Ternary.Algebra.{same→eq, same_refl}
use pgress.Node.{Node, set_value}

-- A write returns the old value, stores the new one, and keeps id, type, kind and attributes; on a
-- version that does not wrap, the version goes up by one if the value changes and stays if not.
pub set_value_lem :
    (new : T) (n : Node)
    → n.version + 1 < 2 ^ 64
    → ((set_value new n).1 ≡ n.value)
      × ((set_value new n).0 ≡ record n {
        value = new;
        version = if same new n.value then n.version else n.version + 1;
      })
unfolding set_value
set_value_lem new n h = elim (Bool-cases (same new n.value)) [
  | inl e ↦ (refl, rw (e, same→eq new n.value e) refl)
  | inr e ↦ (refl, rw e (ap (λ v. record n { value = new; version = v }) (ground arith)))
]

-- The version tells whether a write changed the value.
pub version_iff :
    (new : T) (n : Node)
    → n.version + 1 < 2 ^ 64
    → ((set_value new n).0.version ≡ n.version) ↔ (new ≡ n.value)
unfolding set_value
version_iff new n h =
    (λ e. ground (arith, same→eq new n.value), λ e. ground (arith, same_refl n.value))
