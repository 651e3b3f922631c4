-- ===== src/Propagate/Shortcut.antt =====
-- The counter shortcut of `step_push` gives what the scan over the dependency values gives.
use mathlib.Core.Option.{get_or}
use mathlib.Core.Option
use pgress.Values.{get_by_dense}
use pgress.Prelude.{
  length-map, ap, ℕ, ◌<◌, ◌≡◌, refl, ◌∙◌, arith, true, false, not, ◌&&◌, List, [], ◌∷◌, none, some,
  ltb, eqb, length, if◌then◌else◌, inl, inr, Bool-cases, Option-cases,
}
use pgress.Ternary.{PropState, ready, pending, conflicted, propagation_state, T, same, neg, pos}
use pgress.Ternary.Fold.{count, count-sum, folds_by_counts, propagation_state-by_counts}
use pgress.Node.{
  Node, computed, ComputeRule, meet_all_of, join_any_of, eval, ExecMode, same_mode, eager, lazy,
  stabilizing,
}
use pgress.Graph.{node}
use pgress.Deps.{
  meta_of, mode_of, subs_of, ordered_deps_of, ordered_dep_indices_of, compiled_label,
  update_last_seen, dep_counter, update_dep_counter, subs_vec,
}
use pgress.Deps.Counters.{DepCounters, Counts, total, value_of_state, eval_aggregate-state}
use pgress.Propagate.{World, Batch, emit, bochvar_infected}
use pgress.Propagate.Offer.{
  Env, start, materialize, put_deps, offer, offer_all, recount_all, infect_subs,
}
use pgress.Propagate.Auth.{try_auth}
use pgress.Propagate.Step.{
  aggregate_branch, collected_branch, spread, infect, push_aggregate, push_collected, is_aggregate,
  step_push, push_by_scan, dep_values, n_deps,
}

-- A subscriber is judged by what no counter update touches.
offer-recount :
    (env : Env) (src sub s : ℕ) (old new : T) (b : Batch)
    → offer env src sub (put_deps (update_dep_counter s old new) b)
      ≡ put_deps (update_dep_counter s old new) (offer env src sub b)
unfolding offer update_dep_counter meta_of mode_of try_auth compiled_label update_last_seen
offer-recount env src sub s old new b = ground arith

offer-recount_all :
    (env : Env) (src sub : ℕ) (subs : List ℕ) (old new : T) (b : Batch)
    → offer env src sub (recount_all subs old new b)
      ≡ recount_all subs old new (offer env src sub b)
unfolding recount_all
offer-recount_all env src sub [] old new b = refl
offer-recount_all env src sub (s ∷ subs) old new b =
    offer-recount_all env src sub subs old new (put_deps (update_dep_counter s old new) b)
    ∙ rw (offer-recount env src sub s old new b) refl

subs_vec-recount_all :
    (id : ℕ) (subs : List ℕ) (old new : T) (b : Batch)
    → subs_vec id (recount_all subs old new b).world.deps ≡ subs_vec id b.world.deps
unfolding recount_all
subs_vec-recount_all id [] old new b = refl
subs_vec-recount_all id (s ∷ subs) old new b =
    subs_vec-recount_all id subs old new (put_deps (update_dep_counter s old new) b)
    ∙ (unfold subs_vec update_dep_counter subs_of in refl)

-- One loop that counts and offers, and two loops that do the one after the other.
infect_subs-eager :
    (env : Env) (src : ℕ) (subs : List ℕ) (old new : T) (b : Batch)
    → infect_subs env src eager subs old new b
      ≡ offer_all env src subs (if not (same new old) then recount_all subs old new b else b)
unfolding infect_subs offer_all recount_all
infect_subs-eager env src [] old new b = ground arith
infect_subs-eager env src (s ∷ subs) old new b =
    infect_subs-eager env src subs old new _
    ∙ ground (
      arith,
      offer-recount_all env src s subs old new (put_deps (update_dep_counter s old new) b),
    )

infect_subs-lazy :
    (env : Env) (src : ℕ) (subs : List ℕ) (old new : T) (b : Batch)
    → infect_subs env src lazy subs old new b
      ≡ (if not (same new old) then recount_all subs old new b else b)
unfolding infect_subs recount_all
infect_subs-lazy env src [] old new b = ground arith
infect_subs-lazy env src (s ∷ subs) old new b =
    infect_subs-lazy env src subs old new _ ∙ ground arith

eval_when_ready :
    (rule : ComputeRule) (vals : List T)
    → is_aggregate rule ≡ true
    → 0 < length vals
    → count neg vals ≡ 0
    → count T.zero vals ≡ 0
    → eval rule vals ≡ some pos
unfolding eval
eval_when_ready meet_all_of vals r n p q = ground (arith, folds_by_counts vals, count-sum vals)
eval_when_ready join_any_of vals r n p q = ground (arith, folds_by_counts vals, count-sum vals)
eval_when_ready _ vals r n p q = ground arith

infect_branch :
    (env : Env) (id : ℕ) (old : T) (mode : ExecMode) (dep_ids : List ℕ) (w : World)
    → same_mode mode stabilizing ≡ false
    → (aggregate_branch env id old mode T.zero w).1 ≡ spread env id mode dep_ids (infect id old w)
unfolding infect
infect_branch env id old eager dep_ids w m =
    infect_subs-eager env id _ old T.zero _ ∙ (elim (Bool-cases (same T.zero old)) [
      | inl e ↦ rw e refl
      | inr e ↦
          rw
            (
              e,
              subs_vec-recount_all id (subs_vec id w.deps) old T.zero
                  (materialize id old T.zero (emit (bochvar_infected id none) (start w))),
            )
            refl
    ])
infect_branch env id old lazy dep_ids w m =
    infect_subs-lazy env id _ old T.zero _
    ∙ (elim (Bool-cases (same T.zero old)) [ inl e ↦ rw e refl | inr e ↦ rw e refl ])
infect_branch env id old stabilizing dep_ids w m = ground arith

branches :
    (env : Env) (id : ℕ) (rule : ComputeRule) (old : T) (mode : ExecMode) (dep_ids : List ℕ)
    (vals : List T) (w : World) (p : PropState)
    → same_mode mode stabilizing ≡ false
    → (p ≡ ready → eval rule vals ≡ some pos)
    → aggregate_branch env id old mode (value_of_state p) w
      ≡ collected_branch env id rule old mode dep_ids vals p w
branches env id rule old mode dep_ids vals w ready m h = rw (h refl) refl
branches env id rule old mode dep_ids vals w pending m h = refl
branches env id rule old mode dep_ids vals w conflicted m h =
    ap (λ b. (some T.zero, b)) (infect_branch env id old mode dep_ids w m)

-- Counters that count the dependency values, of which there is one at least, give the step that
-- the scan over the values gives: the same result, world, events and work.
push_aggregate-push_collected :
    (env : Env) (id : ℕ) (rule : ComputeRule) (old : T) (mode : ExecMode) (dep_ids : List ℕ)
    (vals : List T) (ctrs : DepCounters) (w : World)
    → is_aggregate rule ≡ true
    → same_mode mode stabilizing ≡ false
    → 0 < length vals
    → Counts ctrs vals
    → push_aggregate env id old mode ctrs w ≡ push_collected env id rule old mode dep_ids vals w
unfolding push_aggregate push_collected
push_aggregate-push_collected env id rule old mode dep_ids vals ctrs w a m n k =
    rw (eval_aggregate-state ctrs vals k) (
      branches env id rule old mode dep_ids vals w (propagation_state vals) m (λ r.
        eval_when_ready rule vals a n (ground (arith, propagation_state-by_counts vals))
          (ground (arith, propagation_state-by_counts vals))))

length-dep_values : (id : ℕ) (w : World) → length (dep_values id w) ≡ n_deps id w
unfolding dep_values n_deps
length-dep_values id w = ground (
  arith,
  length-map (λ i. get_by_dense i w.values) (ordered_dep_indices_of id w.deps),
  length-map (λ d. get_or (Option.map (λ n. Node.value n) (node d w.graph)) neg)
      (ordered_deps_of id w.deps),
)

-- Whatever the rule, the mode and the state of the world, a step on a computed node of the graph
-- gives what the step without the shortcut gives, if the counters of the node, where it has some,
-- count its dependency values.
pub step_push-push_by_scan :
    (env : Env) (id : ℕ) (n : Node) (rule : ComputeRule) (w : World)
    → node id w.graph ≡ some n
    → n.kind ≡ computed rule
    → ((ctrs : DepCounters) → dep_counter id w.deps ≡ some ctrs → Counts ctrs (dep_values id w))
    → step_push env id w ≡ push_by_scan env id rule n.value w
unfolding step_push
step_push-push_by_scan env id n rule w e f k =
    rw (e, f)
      (elim (Bool-cases (is_aggregate rule)) [
        | inr a ↦ rw a refl
        | inl a ↦ elim (Bool-cases (same_mode (mode_of id w.deps) stabilizing)) [
          | inl m ↦ rw (a, m) refl
          | inr m ↦ elim (Option-cases (dep_counter id w.deps)) [
            | inl c ↦ rw (a, m, c) refl
            | inr (ctrs, c) ↦
                elim (Bool-cases (ltb 0 (n_deps id w) && eqb (total ctrs) (n_deps id w))) [
                  | inr t ↦ rw (a, m, c, t) refl
                  | inl t ↦
                      rw (a, m, c, t)
                        (push_aggregate-push_collected env id rule n.value (mode_of id w.deps)
                          (ordered_deps_of id w.deps) (dep_values id w) ctrs w a m
                          (ground (arith, length-dep_values id w)) (k ctrs c))
                ]
          ]
        ]
      ])
