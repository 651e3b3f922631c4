-- ===== src/Propagate/Kept.antt =====
-- What the steps of a drain keep, the whole drain keeps; the drain's queue and its end.
use pgress.Prelude.{
  ℕ, zero, suc, ◌≡◌, refl, sym, subst, List, [], ◌∷◌, some, inl, inr, Bool-cases, length, ◌++◌, ◌-◌,
  ◌+◌,
}
use pgress.Prelude.Sorting.{add}
use pgress.Ternary.{T}
use pgress.Graph.{Graph, node}
use pgress.Node.{Node, computed, ComputeRule}
use pgress.Values.{ValueStore}
use pgress.Propagate.{World, WorkItem, push, demand, stabilize}
use pgress.Propagate.Offer.{Env}
use pgress.Propagate.Step.{step_push, step_demand}
use pgress.Propagate.Written.{Topology, base, settled, step_push-Settles}
use pgress.Propagate.Drain.{
  PropEngine, Config, Run, restat, queue_all, queue_demanded, widen, handle, is_handled,
  drain_steps, drain, peak_depth, count_demand,
}

-- The loops over new work touch the statistics only.
queue_all-base :
    (work queue : List WorkItem) (r : Run) → base (queue_all work queue r).1.world ≡ base r.world
unfolding queue_all
queue_all-base [] queue r = refl
queue_all-base (push id ∷ work) queue r = queue_all-base work _ r
queue_all-base (demand id ∷ work) queue r = queue_all-base work _ (widen r)
queue_all-base (stabilize region ∷ work) queue r = queue_all-base work _ r

queue_demanded-base :
    (work queue : List WorkItem) (r : Run)
    → base (queue_demanded work queue r).1.world ≡ base r.world
unfolding queue_demanded
queue_demanded-base [] queue r = refl
queue_demanded-base (push id ∷ work) queue r = queue_demanded-base work _ r
queue_demanded-base (demand id ∷ work) queue r = queue_demanded-base work _ (widen r)
queue_demanded-base (stabilize region ∷ work) queue r = queue_demanded-base work _ r

module _ (P : Graph × ValueStore × Topology → Type 0)
    (settled-P : (id : ℕ) (n : Node) (rule : ComputeRule) (new : T)
        (s : Graph × ValueStore × Topology)
      → node id s.0 ≡ some n
      → n.kind ≡ computed rule
      → P s
      → P (settled id n.value new s)) where
  step_push-keeps :
      (env : Env) (id : ℕ) (w : World) → P (base w) → P (base (step_push env id w).1.world)
  step_push-keeps env id w p = elim (step_push-Settles env id w) [
    | inl h ↦ subst P (sym h) p
    | inr (n, rule, new, e, f, h) ↦ subst P (sym h) (settled-P id n rule new (base w) e f p)
  ]

  handle-keeps :
      (c : Config) (item : WorkItem) (queue : List WorkItem) (r : Run)
      → P (base r.world)
      → P (base (handle c item queue r).1.world)
  unfolding handle
  handle-keeps c (push id) queue r p =
      elim (Bool-cases (is_handled c.compiled_handled id r.world.values)) [
        | inl h ↦ rw h p
        | inr h ↦
            let b =
              (step_push (record { now = c.now; auth = c.auth; demanded = r.demanded }) id
                r.world).1 in
            rw h (
              subst P
                (sym (
                  queue_all-base b.work queue
                    (record r { world = b.world; events = r.events ++ b.events })))
                (step_push-keeps _ id r.world p))
      ]
  handle-keeps c (demand id) queue r p =
      let out = step_demand id r.world in
      subst P
        (sym (
          queue_demanded-base out.1 queue (record r {
            world = restat count_demand r.world;
            events = r.events ++ out.0;
            demanded = add id r.demanded;
            demand_frontier = r.demand_frontier - 1;
          })))
        p
  handle-keeps c (stabilize region) queue r p = p

  drain_steps-keeps :
      (c : Config) (limit left : ℕ) (queue : List WorkItem) (r : Run)
      → P (base r.world)
      → P (base (drain_steps c limit left queue r).2.world)
  unfolding drain_steps
  drain_steps-keeps c limit zero [] r p = p
  drain_steps-keeps c limit (suc left) [] r p = p
  drain_steps-keeps c limit zero (item ∷ queue) r p = p
  drain_steps-keeps c limit (suc left) (item ∷ queue) r p =
      let r' = record r { world = restat (peak_depth (length queue + 1)) r.world } in
      let s = handle c item queue r' in
      drain_steps-keeps c limit left s.0 s.1 (handle-keeps c item queue r' p)

  -- A property of the graph, the values and the topology that every write of a computed value keeps
  -- is kept by `drain`, whether it ends well or at the limit.
  pub drain-keeps :
      (c : Config) (max_steps : ℕ) (e : PropEngine) (w : World)
      → P (base w)
      → P (base (drain c max_steps e w).2)
  unfolding drain
  drain-keeps c max_steps e w p = drain_steps-keeps c max_steps max_steps e.queue _ p
