-- ===== src/Sensitivity/Reactions.antt =====
-- How the four sensitivities relate, and what dominance means for the class of a state.
use pgress.Prelude.{
  ◌≡◌, refl, subst, arith, Bool, true, false, not, ◌&&◌, Option, none, some, if◌then◌else◌, inl,
  inr, ◌⊎◌,
}
use pgress.Delta.{ProjectionMask, Delta, affects}
use pgress.Partition.{ZeroKind}
use pgress.Sensitivity.{
  Sensitivity, exact, monotone, stable_only, edge, StateClass, pending, definite, uncertain,
  VersionedState, class, class_of, epistemic_ok, knows_less, same_class, reacts,
  is_less_informative_than, dominates, triggers_recompute,
}

reactions :
    (seen : Bool) (b a : StateClass)
    → (if not seen then false else reacts monotone b a) ≡ (
        (if not seen then false else reacts stable_only b a)
        && (if not seen then false else reacts edge b a)
        && same_class b pending)
reactions false b a = refl
reactions true pending pending = refl
reactions true pending definite = refl
reactions true pending uncertain = refl
reactions true definite a = ground arith
reactions true uncertain a = ground arith

still :
    (s : Sensitivity) (c : StateClass)
    → reacts s c c ≡ true
    → (s ≡ exact) ⊎ ((s ≡ stable_only) × (c ≡ definite))
still exact c h = inl refl
still stable_only definite h = inr (refl, refl)
still stable_only pending h = ground arith
still stable_only uncertain h = ground arith
still monotone c h = ground arith
still edge c h = ground arith

still_between :
    (s : Sensitivity) (b a : StateClass)
    → b ≡ a
    → reacts s b a ≡ true
    → (s ≡ exact) ⊎ ((s ≡ stable_only) × (a ≡ definite))
still_between s b a e h = still s a (subst (λ x. reacts s x a ≡ true) e h)

module _ {ℓ} {A : Type ℓ} where
  class_lem :
      (v : Option A) (z : Option ZeroKind) (w : Option A) (y : Option ZeroKind)
      → (v ≡ none) ⊎ (z ≡ none)
      → (w ≡ none) ⊎ (y ≡ none)
      → epistemic_ok v z w y ≡ true
      → knows_less v z w y ≡ false
      → (class_of w y ≡ pending) ⊎ (class_of v z ≡ class_of w y)
  class_lem v none none none a b h k = inl refl
  class_lem v (some z) none none a b h k = inl refl
  class_lem (some v) none (some w) none a b h k = inr refl
  class_lem none none (some w) none a b h k = ground arith
  class_lem none (some z) (some w) none a b h k = ground arith
  class_lem (some v) (some z) (some w) none a b h k = ground arith
  class_lem none none none (some y) a b h k = ground arith
  class_lem none (some z) none (some y) a b h k = inr refl
  class_lem (some v) none none (some y) a b h k = ground arith
  class_lem (some v) (some z) none (some y) a b h k = inr refl
  class_lem v z (some w) (some y) a b h k = ground arith

  -- Exactly the deltas to which a monotone dependency reacts are those to which both a stable-only
  -- and an edge dependency react and that start from a pending state; an exact one reacts to every
  -- delta that its mask observes.
  pub triggers_recompute-monotone :
      (mask : ProjectionMask) (delta : Delta) (before after : VersionedState A)
      → (triggers_recompute mask monotone delta before after ≡ (
          triggers_recompute mask stable_only delta before after
          && triggers_recompute mask edge delta before after
          && same_class (class before) pending))
        × (triggers_recompute mask exact delta before after ≡ affects mask delta)
  unfolding triggers_recompute
  triggers_recompute-monotone mask delta before after =
      (reactions (affects mask delta) (class before) (class after), ground arith)

  -- No dependency that is not exact reacts to a delta that leaves the class of the state, unless the
  -- state is definite and the dependency waits for stable states.
  pub triggers_recompute-same_class :
      (mask : ProjectionMask) (s : Sensitivity) (delta : Delta) (before after : VersionedState A)
      → class before ≡ class after
      → triggers_recompute mask s delta before after ≡ true
      → (s ≡ exact) ⊎ ((s ≡ stable_only) × (class after ≡ definite))
  unfolding triggers_recompute
  triggers_recompute-same_class mask s delta before after e h =
      still_between s (class before) (class after) e (ground arith)

  -- A state with at most one of a value and a zero, that dominates another such state, is of its
  -- class, or the other one is pending.
  dominates-class :
      (s t : VersionedState A)
      → (s.val ≡ none) ⊎ (s.zero ≡ none)
      → (t.val ≡ none) ⊎ (t.zero ≡ none)
      → dominates s t ≡ true
      → (class t ≡ pending) ⊎ (class s ≡ class t)
  unfolding dominates class is_less_informative_than
  dominates-class s t a b h = class_lem s.val s.zero t.val t.zero a b (ground arith) (ground arith)
