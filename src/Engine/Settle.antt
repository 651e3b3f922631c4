-- ===== src/Engine/Settle.antt =====
-- `drain_and_stabilize`, `run_stabilize` and `recompile_edges_for_node` of core-rs/src/engine.rs, over
-- saturation by `egg`, which is a parameter. The `loop` of `drain_and_stabilize` has no bound in the
-- source: here it runs on a number of rounds, and `none` says that it has not ended by then.
use pgress.Prelude.{
  ◌>>=◌, ℕ, zero, suc, bit_and, Bool, false, List, [], ◌∷◌, Option, none, some, if◌then◌else◌, get,
  nat_eq,
}
use pgress.Prelude.Words.{inc64}
use pgress.Prelude.Sorting.{sort}
use pgress.Ternary.{T, neg, same}
use pgress.Dims.{egraph}
use pgress.Time.{ProductTime, advance}
use pgress.Node
use pgress.Node.{Node, eager, same_mode}
use pgress.Graph.{node, update_node}
use pgress.Deps.{DepRegistry, deps_of, subs_of, subs_vec, compiled_label, set_compiled_label}
use pgress.Values
use pgress.Values.{dense_index}
use pgress.Partition.{PartitionDecl, AuthorityMode, advisory, conflict}
use pgress.Propagate.{demand, PropEvent, value_changed, bochvar_infected, stabilize_queued}
use pgress.Propagate.Auth.{AuthContext}
use pgress.Propagate.Drain.{PropError, Config, drain}
use pgress.Egraph.{
  SectionRegion, structural, boundary, informational, PortCompliance, port_pos, port_neg, port_zero,
}
use pgress.Egraph.Section.{build_section_region}
use pgress.Egraph.Stabilize.{Saturation, stabilize_section}
use pgress.Engine.{
  Engine, EngineError, prop_error, on_graph, on_deps, on_values, emit, queue_item, offer_sub,
}
use pgress.Engine.Circuits.{clear_words, run_dirty}

-- The loops of `run_stabilize`, by what the compliance check says.
unfoldable pub offer_all : ProductTime → ℕ → List ℕ → Engine → Engine
unfolding offer_sub
offer_all causal id [] e = e
offer_all causal id (sub ∷ subs) e = offer_all causal id subs (offer_sub causal id sub e)

abbrev pub write_settled : ProductTime → T → ℕ → T → Engine → Engine
write_settled causal val id old e =
    let e' = emit (value_changed id old val) (
      on_values (Values.set_value id val)
        (on_graph (update_node id (λ m. (Node.set_value val m).0)) e)) in
    offer_all causal id (subs_vec id e'.world.deps) e'

abbrev pub settle_node : ProductTime → T → ℕ → Option Node → Engine → Engine
settle_node causal val id none e = e
settle_node causal val id (some n) e =
    if same n.value T.zero then write_settled causal val id n.value e else e

unfoldable pub settle_members : ProductTime → T → List ℕ → Engine → Engine
unfolding node update_node Node.set_value Values.set_value offer_all subs_vec
settle_members causal val [] e = e
settle_members causal val (id ∷ members) e =
    settle_members causal val members (settle_node causal val id (node id e.world.graph) e)

abbrev pub infect_members : List ℕ → Engine → Engine
infect_members [] e = e
infect_members (id ∷ members) e =
    infect_members members (emit (bochvar_infected id (some conflict)) e)

abbrev pub is_pending_node : Option Node → Bool
is_pending_node none = false
is_pending_node (some n) = same n.value neg

unfoldable pub demand_deps : List ℕ → Engine → Engine
unfolding node
demand_deps [] e = e
demand_deps (dep ∷ deps) e =
    demand_deps deps
      (if is_pending_node (node dep e.world.graph) then queue_item (demand dep) e else e)

unfoldable pub demand_members : List ℕ → Engine → Engine
unfolding demand_deps deps_of
demand_members [] e = e
demand_members (id ∷ members) e = demand_members members (demand_deps (deps_of id e.world.deps) e)

abbrev pub settle_with : Option T → SectionRegion → Engine → Engine
settle_with none region e = e
settle_with (some val) region e =
    let e' = settle_members e.causal_time val (sort region.members) e in
    record e' {
      causal_time = advance egraph e'.causal_time;
      arrival_counter = inc64 e'.arrival_counter;
    }

abbrev pub act_on : Option T × PortCompliance → SectionRegion → Engine → Engine
act_on (resolved, port_pos) region e = settle_with resolved region e
act_on (resolved, port_neg) region e = settle_with resolved region e
act_on (resolved, port_zero boundary) region e = infect_members region.members e
act_on (resolved, port_zero informational) region e = demand_members region.members e
act_on (resolved, port_zero structural) region e = e

module _ (saturate : Saturation) where
  -- `none` only if a loop of the e-graph layer ran out of fuel, which none of them does.
  unfoldable pub run_stabilize : List ℕ → Engine → Option Engine
  unfolding build_section_region stabilize_section settle_members demand_members sort advance
  run_stabilize [] e = some e
  run_stabilize (seed ∷ seeds) e = do
    region ← build_section_region (seed ∷ seeds) e.world.graph e.world.deps 64
    outcome ← stabilize_section saturate region e.world.graph e.world.deps e.port_histories
    some (act_on outcome region e)

  unfoldable pub run_stabilize_all : List (List ℕ) → Engine → Option Engine
  unfolding run_stabilize
  run_stabilize_all [] e = some e
  run_stabilize_all (seeds ∷ rest) e = do e' ← run_stabilize seeds e; run_stabilize_all rest e'

  abbrev pub auth_of : AuthorityMode → Engine → Option AuthContext
  auth_of advisory e = none
  auth_of mode e = some (record {
    mode = e.authority_mode;
    unbound_policy = e.unbound_policy;
    node_partitions = e.node_partitions;
    partition_decls = e.partition_registry;
  })

  -- One call of `PropEngine::drain`.
  unfoldable pub drain_prop : Engine → Option PropError × Engine
  unfolding drain
  drain_prop e =
      let config : Config = record {
        now = e.causal_time;
        auth = auth_of e.authority_mode e;
        compiled_handled = e.compiled_handled;
      } in
      let (error, prop, world) = drain config e.max_steps e.prop e.world in
      (error, record e { prop = prop; world = world })

  abbrev pub queued_seeds : List PropEvent → List (List ℕ)
  queued_seeds [] = []
  queued_seeds (stabilize_queued region ∷ events) = region ∷ queued_seeds events
  queued_seeds (event ∷ events) = queued_seeds events

  abbrev pub other_events : List PropEvent → List PropEvent
  other_events [] = []
  other_events (stabilize_queued region ∷ events) = other_events events
  other_events (event ∷ events) = event ∷ other_events events

  abbrev pub drop_queued : Engine → Engine
  drop_queued e = record e { prop = record e.prop { events = other_events e.prop.events } }

  -- The end of a round without an error: no seeds, or the seeds and the next round.
  abbrev pub next_round :
      (Engine → Option (Option EngineError × Engine))
      → List (List ℕ)
      → Engine
      → Option (Option EngineError × Engine)
  next_round next [] e = some (none, record e { compiled_handled = clear_words e.compiled_handled })
  next_round next (seeds ∷ rest) e = run_stabilize_all (seeds ∷ rest) (drop_queued e) >>= next

  abbrev pub end_round :
      (Engine → Option (Option EngineError × Engine))
      → Option PropError × Engine
      → Option (Option EngineError × Engine)
  end_round next (some error, e) = some (some (prop_error error), e)
  end_round next (none, e) = next_round next (queued_seeds e.prop.events) e

  unfoldable pub drain_rounds : ℕ → Engine → Option (Option EngineError × Engine)
  unfolding drain_prop run_stabilize_all
  drain_rounds zero e = none
  drain_rounds (suc rounds) e = end_round (drain_rounds rounds) (drain_prop e)

  unfoldable pub drain_and_stabilize : ℕ → Engine → Option (Option EngineError × Engine)
  unfolding run_dirty drain_rounds
  drain_and_stabilize rounds e = drain_rounds rounds (run_dirty e)

-- The labels of the outgoing edges, narrowed to the domain.
unfoldable pub narrow_labels : ℕ → ℕ → List ℕ → DepRegistry → DepRegistry
unfolding compiled_label set_compiled_label
narrow_labels id domain_bits [] deps = deps
narrow_labels id domain_bits (sub ∷ subs) deps =
    let label = compiled_label id sub deps in
    narrow_labels id domain_bits subs (
      set_compiled_label id sub
        (record label { causal_scope_bits = bit_and label.causal_scope_bits domain_bits }) deps)

abbrev pub narrow_with : ℕ → Option PartitionDecl → Engine → Engine
narrow_with id none e = e
narrow_with id (some decl) e =
    on_deps (λ deps. narrow_labels id decl.causal_domain.scope_bits (subs_of id deps) deps) e

unfoldable pub recompile_edges_for_node : ℕ → Engine → Engine
unfolding narrow_labels subs_of get
recompile_edges_for_node id e =
    narrow_with id (get id e.node_partitions >>= λ pid. get pid e.partition_registry) e
