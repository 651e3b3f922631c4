-- ===== src/Lib.antt =====
-- A model of the core of pgress (core-rs): an incremental engine that propagates three-valued signals
-- (neg, zero, pos) through a graph of input and computed nodes.
--
-- How the parts interact. A node of the graph store has a value, a version and, if it is computed, a
-- rule. The dependency registry says which nodes a rule reads, in which order, and which nodes read
-- it. `Engine.apply` runs one operation of the instruction set on all of this. A change of a value puts pushes on the work queue of the propagation engine; a push recomputes
-- its node, mirrors the value in the dense value store, moves the counters of the subscribers, and
-- offers a push to each of them, which the delta gate, the mode of the subscriber and the authority
-- gate may stop. Before the queue is drained, the compiled regions that read a changed slot run on the
-- value store alone, and their nodes are skipped afterwards. After each drain the regions of nodes in
-- stabilizing mode go to the e-graph, which writes back a value that all their members agree on; the
-- drain repeats until no region is queued.
--
-- Which file models what:
--   Prelude          tests, lists, hash maps, words and their digits, sorting
--   Ternary          core-rs/src/ternary.rs: `T` and its operations; Ternary.Algebra, Ternary.Fold
--   Values           core-rs/src/value_store.rs: `ValueStore`; Values.Planes, Values.Slots,
--                    Values.Extremum, Values.Scan and Values.Swar
--   Dims, Time       core-rs/src/time.rs: `TimeDimSet`, `ProductTime`; Time.Order, Time.Frontier
--                    (`Frontier`), Time.Clock (`VectorClock`)
--   Delta            core-rs/src/delta.rs: `Delta`, `ProjectionMask`; Delta.Observe, Delta.Covers
--   Masks            core-rs/src/mask.rs: `MaskRegistry`; Masks.Interned
--   Attr, Node       core-rs/src/attr.rs and node.rs: `Node`, `ComputeRule`; Node.Rules, Node.Versions
--   Partition        core-rs/src/partition.rs: labels and `authority_gate`; Partition.Gate,
--                    Partition.Registry
--   Graph            core-rs/src/graph.rs: `Graph`
--   Sensitivity      core-rs/src/sensitivity.rs: `triggers_recompute`; Sensitivity.Reactions
--   Deps             core-rs/src/deps.rs: `DepRegistry`; Deps.Counters (`DepCounters`), Deps.Window
--                    (`DepMeta`, `should_propagate`), Deps.Registry, Deps.Epochs,
--                    Deps.Removal
--   Propagate        core-rs/src/propagate.rs: Propagate.Auth (`try_auth`), Propagate.Offer and
--                    Propagate.Step (`step_push`, `step_demand`), Propagate.Drain (`drain`), and the
--                    proofs in the other children
--   Region           core-rs/src/region.rs: `CompiledRegion`, `RegionArtifactCache`; Region.Index
--                    (`build_region_inv`), Region.Run (`run_compiled_region`), and the proofs in
--                    Region.Cache, Region.Search, Region.Layout and Region.Named (the index),
--                    Region.Row (the hints), Region.Digits and Region.Marks (bit masks), Region.Commit and
--                    Region.Consistent
--   Egraph           core-rs/src/egraph.rs: `PgrsLang`, `pgrs_rules`, `PortHistory`; Egraph.Section
--                    (`build_section_region`), Egraph.Build (`build_region_exprs`),
--                    Egraph.Stabilize (`check_port_compliance`, `stabilize_section`), and the proofs
--                    in Egraph.Rules, Egraph.History and the children of the three
--   Isa              core-rs/src/isa.rs: `IsaOp` and its classes
--   Node.Policy      core-rs/src/node.rs: `StabilizationConfig`, `ExecutionPolicy`
--   Engine           core-rs/src/engine.rs: `Engine`; Engine.Compile (`compile_region`,
--                    `bfs_dep_closure`), Engine.Circuits and Engine.Settle (`drain_and_stabilize`,
--                    `run_stabilize`), Engine.Operations, Engine.Deletion and Engine.Apply (`apply`),
--                    and the proofs in Engine.Errors, Engine.Layers, Engine.Compiled and Engine.Ends
--   Examples         runs at concrete inputs
--
-- Conventions. Numbers are natural; a `u32` or `u64` that the code increments wraps where the
-- definition says so, and theorems state the bound under which it does not. A node id (a UUID) is a
-- number. Hash maps and sets are lists, read by key and by membership only. What the code mutates is
-- passed on: `World` holds the graph, the registry, the value store and the statistics of the engine.
-- `drain` recurs on the steps that are left of `max_steps`, the bound that the code itself has. The
-- other loops take fuel, and `none` says that it has run out. A section walk takes the number of its
-- seeds and of all dependencies, the builder of expressions the number of the members and one, the
-- closure of a region one and the number of all dependencies; all three are enough. `kahn` takes
-- the number of members: an order that is longer is refused in any case. The rounds of
-- `drain_and_stabilize` have no bound in the source, so their number is an argument.
--
-- The package egg is a parameter: a `Saturation` gives the constant of each root that the code hands
-- to it. Its hypothesis, `IsSaturation`, is that a constant it gives for a term is one that the rules
-- and congruence derive. An expression is a term here, where the code shares its nodes by ids.
--
-- Not modelled: the streams of core-rs, the session layer (session-rs), the bindings, the demo and the
-- hardware descriptions; the saturation and the printing of egg. Formatting, conversions and plain
-- accessors are left out; prefetching has no effect on the state.
pub mod Prelude
pub mod Ternary
pub mod Values
pub mod Dims
pub mod Time
pub mod Delta
pub mod Attr
pub mod Node
pub mod Partition
pub mod Graph
pub mod Masks
pub mod Region
pub mod Egraph
pub mod Isa
pub mod Engine
pub mod Sensitivity
pub mod Deps
pub mod Propagate
pub mod Examples
