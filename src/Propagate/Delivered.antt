-- ===== src/Propagate/Delivered.antt =====
-- A change reaches every subscriber that may get it.
use pgress.Prelude.{ℕ, ◌≡◌, true, nat_eq, pair_eq, Any}
use pgress.Node.{eager, same_mode}
use pgress.Deps.{meta_of, mode_of}
use pgress.Propagate.{Batch, WorkItem, push}
use pgress.Propagate.Offer.{Env, open_gate}

-- The push of the subscriber is in the work.
abbrev pub Delivered : ℕ → Batch → Type 0
Delivered sub b = Any (λ (w : WorkItem). w ≡ push sub) b.work

-- The subscriber is eager and the delta gate is open for it.
abbrev pub Open : Env → ℕ → ℕ → Batch → Type 0
Open env src sub b =
    (open_gate (meta_of src sub b.world.deps) env.now ≡ true)
    × (same_mode (mode_of sub b.world.deps) eager ≡ true)
