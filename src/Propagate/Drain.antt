-- ===== src/Propagate/Drain.antt =====
-- The work queue of `PropEngine`, propagate.rs. The field `stats` of the engine, which `drain` passes
-- on to every step, is the one of the `World`.
use pgress.Prelude.{
  ℕ, zero, suc, ◌+◌, ◌-◌, ◌/◌, ◌%◌, ◌^◌, max, bit_and, Bool, true, false, not, ◌&&◌, List, [], ◌∷◌,
  ◌++◌, Option, none, some, eqb, ltb, if◌then◌else◌, length, get_or,
}
use pgress.Prelude.Words.{inc64, shl64}
use pgress.Prelude.Sorting.{add}
use pgress.Time.{ProductTime}
use pgress.Values.{ValueStore, dense_index}
use pgress.Propagate.{
  World, PropStats, PropEvent, stabilize_queued, WorkItem, push, demand, stabilize,
}
use pgress.Propagate.Auth.{AuthContext}
use pgress.Propagate.Step.{step_push, step_demand}

pub data PropError : Type 0 where
  step_limit_exceeded : ℕ → PropError

pub record PropEngine : Type 0 where
  pub queue : List WorkItem
  pub events : List PropEvent
  pub demanded : List ℕ

abbrev pub new : PropEngine
new = record { queue = []; events = []; demanded = [] }

abbrev pub enqueue : WorkItem → PropEngine → PropEngine
enqueue item e = record e { queue = e.queue ++ item ∷ [] }

-- The arguments of `drain` that it does not change.
pub record Config : Type 0 where
  pub now : ProductTime
  pub auth : Option AuthContext
  pub compiled_handled : List ℕ

-- What the loop of `drain` changes, the queue aside.
pub record Run : Type 0 where
  pub world : World
  pub events : List PropEvent
  pub demanded : List ℕ
  pub demand_frontier : ℕ

abbrev pub is_demand : WorkItem → Bool
is_demand (demand id) = true
is_demand _ = false

abbrev pub demand_count : List WorkItem → ℕ
demand_count [] = 0
demand_count (w ∷ ws) = (if is_demand w then 1 else 0) + demand_count ws

abbrev pub restat : (PropStats → PropStats) → World → World
restat f w = record w { stats = f w.stats }

-- `if frontier > stats.max_demand_frontier { .. }`.
abbrev pub peak_frontier : ℕ → PropStats → PropStats
peak_frontier n s = record s { max_demand_frontier = max s.max_demand_frontier n }

abbrev pub peak_depth : ℕ → PropStats → PropStats
peak_depth n s = record s { max_queue_depth = max s.max_queue_depth n }

abbrev pub widen : Run → Run
widen r = record r {
  demand_frontier = r.demand_frontier + 1;
  world = restat (peak_frontier (r.demand_frontier + 1)) r.world;
}

-- The loops over the new work: `queue_all` of a push, `queue_demanded` of a demand, which puts its
-- own demands in front.
unfoldable pub queue_all : List WorkItem → List WorkItem → Run → List WorkItem × Run
queue_all [] queue r = (queue, r)
queue_all (w ∷ work) queue r = queue_all work (queue ++ w ∷ []) (if is_demand w then widen r else r)

unfoldable pub queue_demanded : List WorkItem → List WorkItem → Run → List WorkItem × Run
queue_demanded [] queue r = (queue, r)
queue_demanded (w ∷ work) queue r =
    if is_demand w
    then queue_demanded work (w ∷ queue) (widen r)
    else queue_demanded work (queue ++ w ∷ []) r

abbrev pub handled_slot : Option ℕ → List ℕ → Bool
handled_slot none handled = false
handled_slot (some dense) handled =
    let word = dense / 64 in
    ltb word (length handled)
    && not (eqb (bit_and (get_or handled word 0) (shl64 1 (dense % 64))) 0)

-- The compiled tier has evaluated the node; the test of an empty slice comes to the same.
unfoldable pub is_handled : List ℕ → ℕ → ValueStore → Bool
is_handled handled id vs = not (eqb (length handled) 0) && handled_slot (dense_index id vs) handled

abbrev pub take_push : Config → ℕ → List WorkItem → Run → List WorkItem × Run
take_push c id queue r =
    let b =
      (step_push (record { now = c.now; auth = c.auth; demanded = r.demanded }) id r.world).1 in
    queue_all b.work queue (record r { world = b.world; events = r.events ++ b.events })

abbrev pub count_handled : PropStats → PropStats
count_handled s = record s {
  pushes_suppressed_by_compiled_handled = inc64 s.pushes_suppressed_by_compiled_handled;
}

abbrev pub count_demand : PropStats → PropStats
count_demand s = record s { demands_fired = inc64 s.demands_fired }

abbrev pub count_region : List ℕ → PropStats → PropStats
count_region region s = record s {
  stabilize_region_size_total = (s.stabilize_region_size_total + length region) % 2 ^ 64;
}

unfoldable pub handle : Config → WorkItem → List WorkItem → Run → List WorkItem × Run
unfolding is_handled step_push step_demand queue_all queue_demanded
handle c (push id) queue r =
    if is_handled c.compiled_handled id r.world.values
    then (queue, record r { world = restat count_handled r.world })
    else take_push c id queue r
handle c (demand id) queue r =
    let out = step_demand id r.world in
    queue_demanded out.1 queue (record r {
      world = restat count_demand r.world;
      events = r.events ++ out.0;
      demanded = add id r.demanded;
      demand_frontier = r.demand_frontier - 1;
    })
handle c (stabilize region) queue r = (
  queue,
  record r {
    world = restat (count_region region) r.world;
    events = r.events ++ stabilize_queued region ∷ [];
  },
)

-- The loop, by the steps that are left of `max_steps`: the error, the queue and the rest at its end.
-- The item popped when no step is left is lost.
unfoldable pub drain_steps :
    Config → ℕ → ℕ → List WorkItem → Run → Option PropError × List WorkItem × Run
unfolding handle
drain_steps c max_steps left [] r = (none, [], record r { demanded = [] })
drain_steps c max_steps zero (item ∷ queue) r = (some (step_limit_exceeded max_steps), queue, r)
drain_steps c max_steps (suc left) (item ∷ queue) r =
    let s =
      handle c item queue (record r { world = restat (peak_depth (length queue + 1)) r.world }) in
    drain_steps c max_steps left s.0 s.1

abbrev pub finish : Option PropError × List WorkItem × Run → Option PropError × PropEngine × World
finish (e, queue, r) =
    (e, record { queue = queue; events = r.events; demanded = r.demanded }, r.world)

unfoldable pub drain : Config → ℕ → PropEngine → World → Option PropError × PropEngine × World
unfolding drain_steps
drain c max_steps e w =
    let frontier = demand_count e.queue in
    finish (
      drain_steps c max_steps max_steps e.queue (record {
        world = restat (peak_frontier frontier) w;
        events = e.events;
        demanded = e.demanded;
        demand_frontier = frontier;
      }))
