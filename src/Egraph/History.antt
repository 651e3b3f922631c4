-- ===== src/Egraph/History.antt =====
-- The oscillation count of core-rs/src/egraph.rs.
use pgress.Prelude.{
  ℕ, ◌≡◌, refl, inl, inr, arith, false, not, List, [], ◌∷◌, Option, none, some, some-inj, foldl,
  Bool-cases,
}
use mathlib.Core.Option
use pgress.Ternary.{T}
use pgress.Ternary.Algebra.{same_refl}
use pgress.Egraph.{PortHistory, no_history, is_state, count_change, update_history, is_oscillating}

-- The updates of a port, each with its arrival counter.
abbrev pub run_updates : List (T × ℕ) → PortHistory → PortHistory
run_updates updates h = foldl (λ g u. (update_history u.0 u.1 g).0) h updates

-- The last transition, if there is one, ends in the last state.
abbrev EndsIn : Option T → Option (T × T) → Type 0
EndsIn state none = Unit
EndsIn state (some (start, prev_to)) = state ≡ some prev_to

-- So it does, and nothing has been counted.
abbrev Quiet : PortHistory → Type 0
Quiet h = EndsIn h.last_state h.last_transition × (h.alternating_count ≡ 0)

count_change-Quiet :
    (state : Option T) (transition : Option (T × T)) (count : ℕ)
    → EndsIn state transition
    → count ≡ 0
    → count_change state transition count ≡ 0
count_change-Quiet none transition count e z = z
count_change-Quiet (some last) none count e z = z
count_change-Quiet (some last) (some (start, prev_to)) count e z =
    let at : last ≡ prev_to = some-inj e in rw (at, same_refl prev_to) refl

EndsIn-new : (v : T) (state : Option T) → EndsIn (some v) (Option.map (λ (old : T). (old, v)) state)
EndsIn-new v none = tt
EndsIn-new v (some old) = refl

update_history-Quiet :
    (v : T) (arrival : ℕ) (h : PortHistory) → Quiet h → Quiet (update_history v arrival h).0
unfolding update_history
update_history-Quiet v arrival h (e, z) = elim (Bool-cases (not (is_state v h.last_state))) [
  | inl changed ↦ rw changed (
    EndsIn-new v h.last_state,
    count_change-Quiet h.last_state h.last_transition h.alternating_count e z,
  )
  | inr kept ↦ rw kept (e, z)
]

run_updates-Quiet :
    (updates : List (T × ℕ)) (h : PortHistory) → Quiet h → Quiet (run_updates updates h)
run_updates-Quiet [] h q = q
run_updates-Quiet ((v, arrival) ∷ updates) h q =
    run_updates-Quiet updates (update_history v arrival h).0 (update_history-Quiet v arrival h q)

-- No sequence of updates of a new history ever counts a reversal, so the port is never reported to
-- oscillate, however often its state goes back and forth.
pub is_oscillating-run_updates :
    (updates : List (T × ℕ))
    → ((run_updates updates no_history).alternating_count ≡ 0)
      × (is_oscillating (run_updates updates no_history) ≡ false)
unfolding is_oscillating
is_oscillating-run_updates updates =
    let (e, z) = run_updates-Quiet updates no_history (tt, refl) in (z, ground (arith, z))
