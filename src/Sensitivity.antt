-- ===== src/Sensitivity.antt =====
-- How a dependency reacts to what it observes: core-rs/src/sensitivity.rs.
pub mod Reactions
use pgress.Prelude.{Bool, true, false, not, ◌&&◌, Option, none, some, if◌then◌else◌}
use pgress.Time.{ProductTime}
use pgress.Time
use pgress.Delta.{ProjectionMask, Delta, affects, covers}
use pgress.Partition.{ZeroKind}

pub data Sensitivity : Type 0 where
  exact monotone stable_only edge : Sensitivity

pub data StateClass : Type 0 where
  pending definite uncertain : StateClass

abbrev pub same_class : StateClass → StateClass → Bool
same_class pending pending = true
same_class definite definite = true
same_class uncertain uncertain = true
same_class _ _ = false

pub record VersionedState {ℓ} (A : Type ℓ) : Type ℓ where
  pub val : Option A
  pub zero : Option ZeroKind
  pub mask : ProjectionMask
  pub time : ProductTime

-- The second gate of `triggers_recompute`.
abbrev pub reacts : Sensitivity → StateClass → StateClass → Bool
reacts exact before after = true
reacts monotone before after = same_class before pending && same_class after definite
reacts stable_only before after = same_class after definite
reacts edge before after = not (same_class before after)

module _ {ℓ} {A : Type ℓ} where
  abbrev pub pending_state : ProductTime → ProjectionMask → VersionedState A
  pending_state time mask = record { val = none; zero = none; mask = mask; time = time }

  abbrev pub definite_state : A → ProductTime → ProjectionMask → VersionedState A
  definite_state v time mask = record { val = some v; zero = none; mask = mask; time = time }

  abbrev pub uncertain_state : ZeroKind → ProductTime → ProjectionMask → VersionedState A
  uncertain_state z time mask = record { val = none; zero = some z; mask = mask; time = time }

  abbrev pub class_of : Option A → Option ZeroKind → StateClass
  class_of val (some z) = uncertain
  class_of (some v) none = definite
  class_of none none = pending

  unfoldable pub class : VersionedState A → StateClass
  class s = class_of s.val s.zero

  abbrev pub knows_less : Option A → Option ZeroKind → Option A → Option ZeroKind → Bool
  knows_less none none (some v) _ = true
  knows_less none none none (some z) = true
  knows_less _ _ _ _ = false

  unfoldable pub is_less_informative_than : VersionedState A → VersionedState A → Bool
  is_less_informative_than s t = knows_less s.val s.zero t.val t.zero

  abbrev pub epistemic_ok : Option A → Option ZeroKind → Option A → Option ZeroKind → Bool
  epistemic_ok (some v) none none (some z) = false
  epistemic_ok none (some z) (some v) none = false
  epistemic_ok _ _ _ _ = true

  unfoldable pub dominates : VersionedState A → VersionedState A → Bool
  unfolding Time.dominates covers is_less_informative_than
  dominates s t =
      epistemic_ok s.val s.zero t.val t.zero
      && Time.dominates s.time t.time
      && covers s.mask t.mask
      && not (is_less_informative_than s t)

  unfoldable pub triggers_recompute :
      ProjectionMask → Sensitivity → Delta → VersionedState A → VersionedState A → Bool
  unfolding affects class
  triggers_recompute mask sensitivity delta before after =
      if not (affects mask delta) then false else reacts sensitivity (class before) (class after)
