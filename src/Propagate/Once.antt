-- ===== src/Propagate/Once.antt =====
-- A dependency gets one push for one causal time.
use pgress.Prelude.{
  ℕ, ◌≡◌, refl, ◌∙◌, arith, Bool, true, false, not, ◌&&◌, List, some, inl, inr, Bool-cases, ◌⊎◌,
  get-modify, pair_eq, ==-refl,
}
use pgress.Prelude.Sorting.{member}
use pgress.Deps.{DepRegistry, meta_of, mode_of, update_last_seen}
use pgress.Deps.Window.{DepMeta, should_propagate, should_propagate-stamped}
use pgress.Time.{ProductTime, join}
use pgress.Time.Order.{dominates_refl}
use pgress.Node.{eager, same_mode}
use pgress.Propagate.{Batch, PropEvent}
use pgress.Propagate.Auth.{try_auth}
use pgress.Propagate.Offer.{Env, offer}

meta_of-update_last_seen :
    (src sub : ℕ) (t : ProductTime) (r : DepRegistry) (m : DepMeta)
    → meta_of src sub r ≡ some m
    → meta_of src sub (update_last_seen src sub t r)
      ≡ some (record m { last_seen = join m.last_seen t })
unfolding meta_of update_last_seen
meta_of-update_last_seen src sub t r m h =
    get-modify (src, sub) (src, sub) _ r.dep_meta
    ∙ ground (arith, ==-refl {A = ℕ × ℕ} (src, sub), h)

verdict_cases :
    (v : Bool × List PropEvent)
    → ((events : List PropEvent) × (v ≡ (false, events)))
      ⊎ ((events : List PropEvent) × (v ≡ (true, events)))
verdict_cases (false, events) = inl (events, refl)
verdict_cases (true, events) = inr (events, refl)

-- A second offer at the same time, over a dependency that has meta data, adds no push to the work
-- that the first one leaves.
pub offer-once :
    (env : Env) (src sub : ℕ) (m : DepMeta) (b : Batch)
    → meta_of src sub b.world.deps ≡ some m
    → (offer env src sub (offer env src sub b)).work ≡ (offer env src sub b).work
unfolding offer mode_of update_last_seen
offer-once env src sub m b h =
    let w = b.world in
    let later = meta_of-update_last_seen src sub env.now w.deps m h in
    let shut = should_propagate-stamped m env.now env.now (dominates_refl env.now) in
    rw h (elim (Bool-cases (should_propagate m env.now)) [
      | inr g ↦ rw (g, h, g) refl
      | inl g ↦
          elim (Bool-cases
            (not (same_mode (mode_of sub w.deps) eager) && not (member sub env.demanded))) [
              | inl l ↦ rw (g, l, h, g, l) refl
              | inr l ↦
                  rw (g, l)
                    (elim (verdict_cases (try_auth src sub w.deps env.auth)) [
                      | inl (events, v) ↦ rw (v, h, g, l, v) refl
                      | inr (events, v) ↦ rw (v, later, shut) refl
                    ])
            ]
    ])
