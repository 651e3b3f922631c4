-- ===== src/Deps/Window.antt =====
-- `DepMeta` and the delta gate of core-rs/src/deps.rs: when a dependency is active, and when a push
-- over it is due.
use pgress.Prelude.{
  ◌<◌, ◌≡◌, ◌↔◌, arith, Bool, true, false, not, ◌&&◌, Bool-cases, inl, inr, ltb→lt, List, [], ◌∷◌,
  ltb, Option, none, some, if◌then◌else◌,
}
use pgress.Dims.{TimeDim, identity, attribute, dependency, egraph, boundary, contains}
use pgress.Time.{ProductTime, origin, join, get_dim}
use pgress.Time
use pgress.Time.Frontier.{Frontier}
use pgress.Time.Frontier
use pgress.Partition.{CompiledEdgeLabel, permissive_default}
use pgress.Sensitivity.{Sensitivity, exact}

pub record DepMeta : Type 0 where
  pub since : ProductTime
  pub until : Option Frontier
  pub label : CompiledEdgeLabel
  pub sensitivity : Sensitivity
  pub last_seen : ProductTime

abbrev pub default_meta : DepMeta
default_meta = record {
  since = origin;
  until = none;
  label = permissive_default;
  sensitivity = exact;
  last_seen = origin;
}

abbrev pub expired : Option Frontier → ProductTime → Bool
expired none t = false
expired (some u) t = Frontier.dominates u t

unfoldable pub is_active_at : DepMeta → ProductTime → Bool
is_active_at m t = Time.dominates t m.since && not (expired m.until t)

-- The test of the loop for one dimension.
abbrev pub advanced : DepMeta → ProductTime → TimeDim → Bool
advanced m t dim =
    contains m.label.projection_mask.dims dim && ltb (get_dim dim m.last_seen) (get_dim dim t)

abbrev pub any_advanced : DepMeta → ProductTime → List TimeDim → Bool
any_advanced m t [] = false
any_advanced m t (dim ∷ dims) = if advanced m t dim then true else any_advanced m t dims

unfoldable pub should_propagate : DepMeta → ProductTime → Bool
should_propagate m t = any_advanced m t (identity ∷ attribute ∷ dependency ∷ egraph ∷ boundary ∷ [])

any_advanced-to :
    (m : DepMeta) (t : ProductTime) (dims : List TimeDim)
    → any_advanced m t dims ≡ true
    → (dim : TimeDim) × (contains m.label.projection_mask.dims dim ≡ true)
      × (get_dim dim m.last_seen < get_dim dim t)
any_advanced-to m t [] h = ground arith
any_advanced-to m t (dim ∷ dims) h = elim (Bool-cases (advanced m t dim)) [
  | inl p ↦ (dim, ground arith, ground (arith, ltb→lt (get_dim dim m.last_seen) (get_dim dim t)))
  | inr p ↦ any_advanced-to m t dims (ground arith)
]

any_advanced-from :
    (m : DepMeta) (t : ProductTime) (dim : TimeDim)
    → advanced m t dim ≡ true
    → any_advanced m t (identity ∷ attribute ∷ dependency ∷ egraph ∷ boundary ∷ []) ≡ true
any_advanced-from m t identity h = ground arith
any_advanced-from m t attribute h = ground arith
any_advanced-from m t dependency h = ground arith
any_advanced-from m t egraph h = ground arith
any_advanced-from m t boundary h = ground arith

-- A push is due exactly if the clock has moved past the last push in a dimension that the
-- projection mask of the dependency observes.
pub should_propagate_iff :
    (m : DepMeta) (t : ProductTime)
    → (should_propagate m t ≡ true) ↔ (
        (dim : TimeDim) × (contains m.label.projection_mask.dims dim ≡ true)
        × (get_dim dim m.last_seen < get_dim dim t))
unfolding should_propagate
should_propagate_iff m t = (
  any_advanced-to m t (identity ∷ attribute ∷ dependency ∷ egraph ∷ boundary ∷ []),
  λ (dim, p, q). any_advanced-from m t dim (ground arith),
)

-- The stamp that a push leaves closes the gate for every clock not beyond it, whatever the mask.
pub should_propagate-stamped :
    (m : DepMeta) (t u : ProductTime)
    → Time.dominates t u ≡ true
    → should_propagate (record m { last_seen = join m.last_seen t }) u ≡ false
unfolding should_propagate get_dim join Time.dominates
should_propagate-stamped m t u h = ground arith
