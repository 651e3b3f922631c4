-- ===== src/Propagate/Gated.antt =====
-- What authority does to a push.
use pgress.Prelude.{ℕ, ◌≡◌, refl, ◌↔◌, arith, Bool, true, false, Option, none, some, get, nat_eq}
use pgress.Partition.{
  unbound_source, CompiledEdgeLabel, EmittedAuth, PartitionDecl, GateReason, from_local,
  authority_gate, flows_to, audit, enforced, UnboundPolicy, allow, audit_only, deny,
}
use pgress.Partition.Gate.{authority_gate-from_local}
use pgress.Deps.{DepRegistry, compiled_label}
use pgress.Propagate.{PropEvent, auth_violation}
use pgress.Propagate.Auth.{
  AuthContext, emitted_auth, judge, judge_gate, judge_unbound, bound_decl, try_auth,
}

unbound_goes_on : (policy : UnboundPolicy) (e : PropEvent) → (judge_unbound policy audit e).0 ≡ true
unbound_goes_on allow e = refl
unbound_goes_on audit_only e = refl
unbound_goes_on deny e = refl

bound_goes_on : (o : Option GateReason) (src tgt : ℕ) → (judge_gate o audit src tgt).0 ≡ true
bound_goes_on none src tgt = refl
bound_goes_on (some reason) src tgt = refl

judge-audit :
    (v : EmittedAuth × Bool) (compiled : CompiledEdgeLabel) (ctx : AuthContext) (src tgt : ℕ)
    → ctx.mode ≡ audit
    → (judge v compiled ctx src tgt).0 ≡ true
judge-audit (emitted, true) compiled ctx src tgt h =
    rw h (unbound_goes_on ctx.unbound_policy (auth_violation src tgt unbound_source))
judge-audit (emitted, false) compiled ctx src tgt h =
    rw h (bound_goes_on (authority_gate compiled emitted) src tgt)

-- In audit mode every push goes on, whatever the partitions, the label and the policy.
try_auth-audit :
    (src tgt : ℕ) (deps : DepRegistry) (ctx : AuthContext)
    → ctx.mode ≡ audit
    → (try_auth src tgt deps (some ctx)).0 ≡ true
unfolding try_auth
try_auth-audit src tgt deps ctx h =
    judge-audit (emitted_auth ctx src (compiled_label src tgt deps)) (compiled_label src tgt deps)
      ctx src tgt h

judge_enforced :
    (o : Option GateReason) (src tgt : ℕ) → ((judge_gate o enforced src tgt).0 ≡ true) ↔ (o ≡ none)
judge_enforced none src tgt = (λ h. refl, λ h. refl)
judge_enforced (some reason) src tgt = (λ h. ground arith, λ h. ground arith)

-- In enforced mode a push from a node with a declared partition goes on exactly if the class of the
-- partition flows to the class of the edge label.
pub try_auth-enforced :
    (src tgt : ℕ) (deps : DepRegistry) (ctx : AuthContext) (decl : PartitionDecl)
    → ctx.mode ≡ enforced
    → bound_decl (get src ctx.node_partitions) ctx ≡ some decl
    → ((try_auth src tgt deps (some ctx)).0 ≡ true)
      ↔ (flows_to decl.lattice_class (compiled_label src tgt deps).lattice_class ≡ true)
unfolding try_auth emitted_auth
try_auth-enforced src tgt deps ctx decl h b =
    let compiled = compiled_label src tgt deps in
    let gate = authority_gate-from_local compiled decl in
    let judged = judge_enforced (authority_gate compiled (from_local compiled decl)) src tgt in
    rw (b, h) (λ e. gate.0 (judged.0 e), λ e. judged.1 (gate.1 e))
