-- ===== src/Propagate.antt =====
-- The propagation engine of core-rs/src/propagate.rs: the state that a drain changes and the parts of
-- it that the steps share. The graph, the registry, the value store and the statistics, which the
-- source passes by mutable reference, are the fields of `World`. The `u64` counters wrap.
pub mod Auth
pub mod Offer
pub mod Step
pub mod Drain
pub mod Shortcut
pub mod Written
pub mod Coherent
pub mod Identity
pub mod Kept
pub mod Ends
pub mod Once
pub mod Gated
pub mod Delivered
use pgress.Prelude.{ℕ, ◌+◌, List, [], ◌∷◌, ◌++◌, Option, none, some}
use pgress.Prelude.Words.{inc64}
use pgress.Ternary.{T}
use pgress.Graph.{Graph}
use pgress.Deps.{DepRegistry}
use pgress.Values.{ValueStore}
use pgress.Partition.{GateReason, ZeroKind}

pub record PropStats : Type 0 where
  pub nodes_materialized : ℕ
  pub pushes_suppressed_by_mode : ℕ
  pub pushes_suppressed_by_delta : ℕ
  pub demands_fired : ℕ
  pub max_queue_depth : ℕ
  pub max_demand_frontier : ℕ
  pub stabilize_region_size_total : ℕ
  pub pushes_suppressed_by_compiled_handled : ℕ

abbrev pub no_stats : PropStats
no_stats = record {
  nodes_materialized = 0;
  pushes_suppressed_by_mode = 0;
  pushes_suppressed_by_delta = 0;
  demands_fired = 0;
  max_queue_depth = 0;
  max_demand_frontier = 0;
  stabilize_region_size_total = 0;
  pushes_suppressed_by_compiled_handled = 0;
}

pub data WorkItem : Type 0 where
  push : ℕ → WorkItem
  demand : ℕ → WorkItem
  stabilize : List ℕ → WorkItem

pub data PropEvent : Type 0 where
  value_changed : (node : ℕ) (old new : T) → PropEvent
  bochvar_infected : (node : ℕ) (kind : Option ZeroKind) → PropEvent
  demand_fired : (node : ℕ) → PropEvent
  stabilize_queued : (region : List ℕ) → PropEvent
  auth_violation : (src tgt : ℕ) (reason : GateReason) → PropEvent

pub record World : Type 0 where
  pub graph : Graph
  pub deps : DepRegistry
  pub values : ValueStore
  pub stats : PropStats

-- A world, with the events and the work that a step has put out so far.
pub record Batch : Type 0 where
  pub world : World
  pub events : List PropEvent
  pub work : List WorkItem

abbrev pub emit : PropEvent → Batch → Batch
emit e b = record b { events = b.events ++ e ∷ [] }

abbrev pub enqueue : WorkItem → Batch → Batch
enqueue w b = record b { work = b.work ++ w ∷ [] }
