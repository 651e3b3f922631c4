-- ===== src/Propagate/Ends.antt =====
-- How a drain ends.
use pgress.Prelude.{
  ℕ, zero, suc, ◌+◌, ◌≡◌, refl, ap, arith, List, [], ◌∷◌, Option, none, some, ◌⊎◌, inl, inr, length,
}
use pgress.Propagate.{World, WorkItem}
use pgress.Propagate.Drain.{
  PropEngine, PropError, Config, Run, restat, handle, drain_steps, drain, finish, peak_depth,
  step_limit_exceeded,
}

-- What the result and the engine are at the end.
abbrev pub Ends : ℕ → Option PropError × PropEngine × World → Type 0
Ends limit (err, e, w) =
    ((err ≡ none) × (e.queue ≡ []) × (e.demanded ≡ [])) ⊎ (err ≡ some (step_limit_exceeded limit))

drain_steps-Ends :
    (c : Config) (limit left : ℕ) (queue : List WorkItem) (r : Run)
    → Ends limit (finish (drain_steps c limit left queue r))
unfolding drain_steps
drain_steps-Ends c limit zero [] r = inl (refl, refl, refl)
drain_steps-Ends c limit (suc left) [] r = inl (refl, refl, refl)
drain_steps-Ends c limit zero (item ∷ queue) r = inr refl
drain_steps-Ends c limit (suc left) (item ∷ queue) r =
    let r' = record r { world = restat (peak_depth (length queue + 1)) r.world } in
    let s = handle c item queue r' in drain_steps-Ends c limit left s.0 s.1

-- A drain either ends well, with no work and no demand left, or with the error of its limit.
drain-Ends :
    (c : Config) (max_steps : ℕ) (e : PropEngine) (w : World)
    → Ends max_steps (drain c max_steps e w)
unfolding drain
drain-Ends c max_steps e w = drain_steps-Ends c max_steps max_steps e.queue _

more_steps :
    (c : Config) (limit limit' left k : ℕ) (queue : List WorkItem) (r : Run)
    → (drain_steps c limit left queue r).0 ≡ none
    → drain_steps c limit' (left + k) queue r ≡ drain_steps c limit left queue r
unfolding drain_steps
more_steps c limit limit' zero zero [] r h = refl
more_steps c limit limit' zero (suc k) [] r h = refl
more_steps c limit limit' (suc left) k [] r h = refl
more_steps c limit limit' zero k (item ∷ queue) r h = ground arith
more_steps c limit limit' (suc left) k (item ∷ queue) r h =
    let r' = record r { world = restat (peak_depth (length queue + 1)) r.world } in
    let s = handle c item queue r' in
    let e : suc left + k ≡ suc (left + k) = omega arith in
    rw e (more_steps c limit limit' left k s.0 s.1 h)

-- The limit is a bound only: a drain that ends well within it ends the same way, in the same engine
-- and world, under every larger limit.
pub drain-more_steps :
    (c : Config) (max_steps k : ℕ) (e : PropEngine) (w : World)
    → (drain c max_steps e w).0 ≡ none
    → drain c (max_steps + k) e w ≡ drain c max_steps e w
unfolding drain
drain-more_steps c max_steps k e w h =
    ap finish (more_steps c max_steps (max_steps + k) max_steps k e.queue _ h)
