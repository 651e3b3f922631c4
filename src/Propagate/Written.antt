-- ===== src/Propagate/Written.antt =====
-- What a step writes: at most the value of the node it is for, in the graph and in the value store,
-- and in the registry only counters and `last_seen`.
use mathlib.Core.Option.{get_or}
use pgress.Prelude.{
  ℕ, ◌≡◌, refl, ap, ◌∙◌, ltb, arith, not, List, [], ◌∷◌, Map, Option, none, some, if◌then◌else◌,
  inl, inr, ◌⊎◌, Bool-cases, Option-cases,
}
use pgress.Ternary.{T, neg, pos, same, PropState, ready, pending, conflicted, propagation_state}
use pgress.Ternary.Fold.{count, propagation_state-by_counts}
use pgress.Graph.{Graph, node, update_node}
use pgress.Node.{
  eval, Node, NodeKind, input, computed, ComputeRule, ExecMode, eager, lazy, stabilizing, same_mode,
}
use pgress.Node
use pgress.Deps.{DepRegistry, update_dep_counter, update_last_seen, subs_vec, mode_of}
use pgress.Deps.Counters.{DepCounters, eval_aggregate}
use pgress.Values.{ValueStore}
use pgress.Values
use pgress.Propagate.{World, Batch, emit, bochvar_infected}
use pgress.Propagate.Offer.{
  Env, start, put_deps, materialize, offer, offer_all, recount_all, infect_subs, recount_and_offer,
}
use pgress.Propagate.Step.{
  push_ready, infect, spread, push_aggregate, push_collected, collected_branch, aggregate_branch,
  step_push, push_rule, shortcut, dep_values, push_by_scan, push_kind,
}

-- The registry without the counters and the meta data of the pairs.
pub record Topology : Type 0 where
  pub deps : Map ℕ (List ℕ)
  pub subs : Map ℕ (List ℕ)
  pub modes : Map ℕ ExecMode
  pub ordered_deps : Map ℕ (List ℕ)
  pub ordered_dep_indices : Map ℕ (List ℕ)
  pub adj_epochs : Map ℕ ℕ

abbrev pub topology : DepRegistry → Topology
topology r = record {
  deps = r.deps;
  subs = r.subs;
  modes = r.modes;
  ordered_deps = r.ordered_deps;
  ordered_dep_indices = r.ordered_dep_indices;
  adj_epochs = r.adj_epochs;
}

-- What the loops over the subscribers leave alone.
abbrev pub base : World → Graph × ValueStore × Topology
base w = (w.graph, w.values, topology w.deps)

offer-base : (env : Env) (src sub : ℕ) (b : Batch) → base (offer env src sub b).world ≡ base b.world
unfolding offer update_last_seen
offer-base env src sub b = ground arith

recount-base :
    (sub : ℕ) (old new : T) (b : Batch)
    → base (put_deps (update_dep_counter sub old new) b).world ≡ base b.world
unfolding update_dep_counter
recount-base sub old new b = refl

offer_all-base :
    (env : Env) (src : ℕ) (subs : List ℕ) (b : Batch)
    → base (offer_all env src subs b).world ≡ base b.world
unfolding offer_all
offer_all-base env src [] b = refl
offer_all-base env src (s ∷ subs) b = offer_all-base env src subs _ ∙ offer-base env src s b

recount_all-base :
    (subs : List ℕ) (old new : T) (b : Batch)
    → base (recount_all subs old new b).world ≡ base b.world
unfolding recount_all
recount_all-base [] old new b = refl
recount_all-base (s ∷ subs) old new b = recount_all-base subs old new _ ∙ recount-base s old new b

recount_and_offer-base :
    (env : Env) (src : ℕ) (subs : List ℕ) (old new : T) (b : Batch)
    → base (recount_and_offer env src subs old new b).world ≡ base b.world
unfolding recount_and_offer
recount_and_offer-base env src [] old new b = refl
recount_and_offer-base env src (s ∷ subs) old new b =
    recount_and_offer-base env src subs old new _
    ∙ offer-base env src s _
    ∙ recount-base s old new b

infect_subs-base :
    (env : Env) (src : ℕ) (mode : ExecMode) (subs : List ℕ) (old new : T) (b : Batch)
    → base (infect_subs env src mode subs old new b).world ≡ base b.world
unfolding infect_subs
infect_subs-base env src mode [] old new b = refl
infect_subs-base env src mode (s ∷ subs) old new b =
    infect_subs-base env src mode subs old new _
    ∙ ground (
      arith,
      offer-base env src s b,
      offer-base env src s (put_deps (update_dep_counter s old new) b),
      recount-base s old new b,
    )

-- The base after a write of a value.
abbrev pub wrote : ℕ → T → Graph × ValueStore × Topology → Graph × ValueStore × Topology
wrote id v (g, vs, t) =
    (update_node id (λ n. (Node.set_value v n).0) g, Values.set_value id v vs, t)

-- The base with the new value of the node, unless the old one is the new one.
abbrev pub settled : ℕ → T → T → Graph × ValueStore × Topology → Graph × ValueStore × Topology
settled id old new s = if not (same new old) then wrote id new s else s

push_ready-base :
    (env : Env) (id : ℕ) (old new : T) (b : Batch)
    → base (push_ready env id old new b).world ≡ settled id old new (base b.world)
unfolding push_ready materialize
push_ready-base env id old new b = elim (Bool-cases (same new old)) [
  | inl e ↦ rw e refl
  | inr e ↦
      let b' = materialize id old new b in
      rw e (recount_and_offer-base env id (subs_vec id b'.world.deps) old new b')
]

infect-base :
    (id : ℕ) (old : T) (w : World) → base (infect id old w).world ≡ settled id old T.zero (base w)
unfolding infect materialize
infect-base id old w = elim (Bool-cases (same T.zero old)) [
  | inl e ↦ rw e refl
  | inr e ↦
      let b' = materialize id old T.zero (emit (bochvar_infected id none) (start w)) in
      rw e (recount_all-base (subs_vec id b'.world.deps) old T.zero b')
]

spread-base :
    (env : Env) (id : ℕ) (mode : ExecMode) (dep_ids : List ℕ) (b : Batch)
    → base (spread env id mode dep_ids b).world ≡ base b.world
spread-base env id eager dep_ids b = offer_all-base env id _ b
spread-base env id lazy dep_ids b = refl
spread-base env id stabilizing dep_ids b = refl

-- What the state of the dependencies makes of the base.
abbrev outcome :
    PropState
    → ComputeRule
    → List T
    → ℕ
    → T
    → Graph × ValueStore × Topology
    → Graph × ValueStore × Topology
outcome ready rule vals id old s = settled id old (get_or (eval rule vals) neg) s
outcome pending rule vals id old s = s
outcome conflicted rule vals id old s = settled id old T.zero s

collected_branch-outcome :
    (env : Env) (id : ℕ) (rule : ComputeRule) (old : T) (mode : ExecMode) (dep_ids : List ℕ)
    (vals : List T) (w : World) (p : PropState)
    → base (collected_branch env id rule old mode dep_ids vals p w).1.world
      ≡ outcome p rule vals id old (base w)
collected_branch-outcome env id rule old mode dep_ids vals w ready =
    push_ready-base env id old _ (start w)
collected_branch-outcome env id rule old mode dep_ids vals w pending = refl
collected_branch-outcome env id rule old mode dep_ids vals w conflicted =
    spread-base env id mode dep_ids _ ∙ infect-base id old w

push_collected-by_state :
    (env : Env) (id : ℕ) (rule : ComputeRule) (old : T) (mode : ExecMode) (dep_ids : List ℕ)
    (vals : List T) (w : World)
    → base (push_collected env id rule old mode dep_ids vals w).1.world
      ≡ outcome (propagation_state vals) rule vals id old (base w)
unfolding push_collected
push_collected-by_state env id rule old mode dep_ids vals w =
    collected_branch-outcome env id rule old mode dep_ids vals w (propagation_state vals)

-- A step that reads the dependency values settles zero if one of them is zero, settles the value of
-- the rule, neg if it has none, if none of them is zero or neg, and writes nothing if one is neg and
-- none zero. To settle a value is to write it to the node and its slot unless it is the old one;
-- beyond that the step changes no node, no value and no edge of the dependency graph.
pub push_collected-outcome :
    (env : Env) (id : ℕ) (rule : ComputeRule) (old : T) (mode : ExecMode) (dep_ids : List ℕ)
    (vals : List T) (w : World)
    → base (push_collected env id rule old mode dep_ids vals w).1.world ≡ (
        if ltb 0 (count T.zero vals)
        then settled id old T.zero (base w)
        else if ltb 0 (count neg vals)
        then base w
        else settled id old (get_or (eval rule vals) neg) (base w))
push_collected-outcome env id rule old mode dep_ids vals w =
    push_collected-by_state env id rule old mode dep_ids vals w
    ∙ ap (λ p. outcome p rule vals id old (base w)) (propagation_state-by_counts vals)
    ∙ ground arith

aggregate_branch-base :
    (env : Env) (id : ℕ) (old : T) (mode : ExecMode) (v : T) (w : World)
    → (base (aggregate_branch env id old mode v w).1.world ≡ base w)
      ⊎ ((new : T) × (base (aggregate_branch env id old mode v w).1.world
            ≡ settled id old new (base w)))
unfolding materialize
aggregate_branch-base env id old mode neg w = inl refl
aggregate_branch-base env id old mode pos w = inr (pos, push_ready-base env id old pos (start w))
aggregate_branch-base env id old mode T.zero w = inr (
  T.zero,
  infect_subs-base env id mode _ old T.zero _
      ∙ (elim (Bool-cases (same T.zero old)) [ inl e ↦ rw e refl | inr e ↦ rw e refl ]),
)

-- The step of a computed node leaves the base, or settles a value for that node.
abbrev pub Settles : ℕ → World → World → Type 0
Settles id w w' =
    (base w' ≡ base w)
    ⊎ ((n : Node) × (rule : ComputeRule) × (new : T) × (node id w.graph ≡ some n)
        × (n.kind ≡ computed rule)
        × (base w' ≡ settled id n.value new (base w)))

Settles-outcome :
    (id : ℕ) (n : Node) (rule : ComputeRule) (vals : List T) (p : PropState) (w w' : World)
    → node id w.graph ≡ some n
    → n.kind ≡ computed rule
    → base w' ≡ outcome p rule vals id n.value (base w)
    → Settles id w w'
Settles-outcome id n rule vals ready w w' e f h =
    inr (n, rule, get_or (eval rule vals) neg, e, f, h)
Settles-outcome id n rule vals pending w w' e f h = inl h
Settles-outcome id n rule vals conflicted w w' e f h = inr (n, rule, T.zero, e, f, h)

Settles-at :
    (env : Env) (id : ℕ) (n : Node) (rule : ComputeRule) (w : World) (o : Option DepCounters)
    → node id w.graph ≡ some n
    → n.kind ≡ computed rule
    → Settles id w (push_rule o env id rule n.value w).1.world
Settles-at env id n rule w none e f =
    Settles-outcome id n rule (dep_values id w) (propagation_state (dep_values id w)) w
      (push_by_scan env id rule n.value w).1.world e f
      (push_collected-by_state env id rule n.value _ _ (dep_values id w) w)
Settles-at env id n rule w (some ctrs) e f =
    elim (aggregate_branch-base env id n.value (mode_of id w.deps) (eval_aggregate ctrs) w) [
      | inl h ↦ inl (unfold push_aggregate in h)
      | inr (new, h) ↦ inr (n, rule, new, e, f, (unfold push_aggregate in h))
    ]

push_kind-Settles :
    (env : Env) (id : ℕ) (n : Node) (k : NodeKind) (w : World)
    → node id w.graph ≡ some n
    → n.kind ≡ k
    → Settles id w (push_kind k env id n.value w).1.world
push_kind-Settles env id n input w e f = inl refl
push_kind-Settles env id n (computed rule) w e f =
    Settles-at env id n rule w (shortcut id rule w) e f

-- Every step of `step_push` leaves the base, or settles a value for a computed node.
pub step_push-Settles : (env : Env) (id : ℕ) (w : World) → Settles id w (step_push env id w).1.world
unfolding step_push
step_push-Settles env id w = elim (Option-cases (node id w.graph)) [
  | inl e ↦ rw e (inl refl)
  | inr (n, e) ↦ elim (push_kind-Settles env id n n.kind w e refl) [
    | inl h ↦ inl (rw e h)
    | inr (m, rule, new, p, q, h) ↦ inr (m, rule, new, p, q, rw e h)
  ]
]
