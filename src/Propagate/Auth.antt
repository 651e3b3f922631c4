-- ===== src/Propagate/Auth.antt =====
-- `AuthContext` and `try_auth` of propagate.rs.
use pgress.Prelude.{ℕ, Bool, true, false, List, [], ◌∷◌, Option, none, some, Map, get, nat_eq}
use pgress.Partition.{
  CompiledEdgeLabel, PartitionDecl, EmittedAuth, from_local, unbound, GateReason, unbound_source,
  authority_gate, AuthorityMode, advisory, audit, enforced, UnboundPolicy, allow, audit_only, deny,
}
use pgress.Deps.{DepRegistry, compiled_label}
use pgress.Propagate.{PropEvent, auth_violation}

pub record AuthContext : Type 0 where
  pub mode : AuthorityMode
  pub unbound_policy : UnboundPolicy
  pub node_partitions : Map ℕ ℕ
  pub partition_decls : Map ℕ PartitionDecl

abbrev pub emitted_by : Option PartitionDecl → CompiledEdgeLabel → EmittedAuth × Bool
emitted_by none compiled = (unbound, true)
emitted_by (some decl) compiled = (from_local compiled decl, false)

abbrev pub bound_decl : Option ℕ → AuthContext → Option PartitionDecl
bound_decl none ctx = none
bound_decl (some pid) ctx = get pid ctx.partition_decls

-- The authority of a node and whether it is unbound.
unfoldable pub emitted_auth : AuthContext → ℕ → CompiledEdgeLabel → EmittedAuth × Bool
emitted_auth ctx node_id compiled =
    emitted_by (bound_decl (get node_id ctx.node_partitions) ctx) compiled

-- Whether the push goes on, and the events it leaves.
abbrev pub judge_unbound : UnboundPolicy → AuthorityMode → PropEvent → Bool × List PropEvent
judge_unbound allow mode e = (true, [])
judge_unbound audit_only mode e = (true, e ∷ [])
judge_unbound deny audit e = (true, e ∷ [])
judge_unbound deny _ e = (false, [])

abbrev pub judge_gate : Option GateReason → AuthorityMode → ℕ → ℕ → Bool × List PropEvent
judge_gate none mode src tgt = (true, [])
judge_gate (some reason) advisory src tgt = (true, [])
judge_gate (some reason) audit src tgt = (true, auth_violation src tgt reason ∷ [])
judge_gate (some reason) enforced src tgt = (false, [])

abbrev pub judge :
    EmittedAuth × Bool → CompiledEdgeLabel → AuthContext → ℕ → ℕ → Bool × List PropEvent
judge (emitted, true) compiled ctx src tgt =
    judge_unbound ctx.unbound_policy ctx.mode (auth_violation src tgt unbound_source)
judge (emitted, false) compiled ctx src tgt =
    judge_gate (authority_gate compiled emitted) ctx.mode src tgt

unfoldable pub try_auth : ℕ → ℕ → DepRegistry → Option AuthContext → Bool × List PropEvent
unfolding emitted_auth authority_gate
try_auth src tgt deps none = (true, [])
try_auth src tgt deps (some ctx) =
    let compiled = compiled_label src tgt deps in
    judge (emitted_auth ctx src compiled) compiled ctx src tgt
