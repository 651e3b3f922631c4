-- ===== src/Partition.antt =====
-- Partitions, authority and edge labels: core-rs/src/partition.rs. A `u64` of bits is a number; the
-- newtypes `LatticeClass` and `CapabilityBits` are their words. The nil UUID is 0.
pub mod Gate
pub mod Registry
use Prim.Native.String.{String}
use pgress.Prelude.{
  ℕ, bit_and, Bool, true, false, not, List, Option, none, some, eqb, if◌then◌else◌, Map, get,
  insert, nat_eq,
}
use pgress.Prelude.Words.{max64}
use pgress.Delta.{ProjectionMask, wildcard_mask}
use pgress.Node.{Port, PortKind, signal}
use pgress.Time.Clock.{VectorClock}

abbrev pub LatticeClass : Type 0
LatticeClass = ℕ

abbrev pub bottom : LatticeClass
bottom = 0

unfoldable pub flows_to : LatticeClass → LatticeClass → Bool
flows_to a b = eqb (bit_and a b) a

abbrev pub CapabilityBits : Type 0
CapabilityBits = ℕ

unfoldable pub allows : CapabilityBits → CapabilityBits → Bool
allows held required = eqb (bit_and held required) required

pub record CausalScope : Type 0 where
  pub scope_bits : ℕ
  pub root : ℕ

abbrev pub universal : CausalScope
universal = record { scope_bits = max64; root = 0 }

unfoldable pub scope_contains : CausalScope → ℕ → Bool
scope_contains s other_bits = eqb (bit_and s.scope_bits other_bits) other_bits

pub record EdgeLabel : Type 0 where
  pub capability : CapabilityBits
  pub lattice_class : LatticeClass
  pub projection_mask : ProjectionMask
  pub causal_scope : CausalScope

pub record CompiledEdgeLabel : Type 0 where
  pub capability : CapabilityBits
  pub lattice_class : LatticeClass
  pub projection_mask : ProjectionMask
  pub causal_scope_bits : ℕ

-- `EdgeLabel::permissive` and `CompiledEdgeLabel::permissive_default`.
abbrev pub permissive : EdgeLabel
permissive = record {
  capability = max64;
  lattice_class = bottom;
  projection_mask = wildcard_mask;
  causal_scope = universal;
}

abbrev pub permissive_default : CompiledEdgeLabel
permissive_default = record {
  capability = max64;
  lattice_class = bottom;
  projection_mask = wildcard_mask;
  causal_scope_bits = max64;
}

unfoldable pub compile : EdgeLabel → CompiledEdgeLabel
compile label = record {
  capability = label.capability;
  lattice_class = label.lattice_class;
  projection_mask = label.projection_mask;
  causal_scope_bits = label.causal_scope.scope_bits;
}

pub data ZeroKind : Type 0 where
  conflict incomplete ambiguous retracted boundary_violation version_skew : ZeroKind

pub data PayloadKind : Type 0 where
  definite : PayloadKind
  typed_zero : ZeroKind → PayloadKind

pub record RemoteDep : Type 0 where
  pub source_partition : ℕ
  pub source_uid : ℕ
  pub source_version : ℕ
  pub port_kind : PortKind
  pub causal_frontier : VectorClock
  pub payload_kind : PayloadKind
  pub source_authority : ℕ
  pub emitted_class : LatticeClass
  pub capability : CapabilityBits
  pub causal_scope : CausalScope

pub data DepKind : Type 0 where
  local : Option Port → DepKind
  remote : RemoteDep → DepKind

abbrev pub port_kind_of : DepKind → PortKind
port_kind_of (local (some p)) = p.kind
port_kind_of (local none) = signal
port_kind_of (remote r) = r.port_kind

abbrev pub is_remote : DepKind → Bool
is_remote (local p) = false
is_remote (remote r) = true

pub record PartitionDecl : Type 0 where
  pub id : ℕ
  pub authority_root : ℕ
  pub lattice_class : LatticeClass
  pub causal_domain : CausalScope

pub record EmittedAuth : Type 0 where
  pub source_root : ℕ
  pub class : LatticeClass
  pub capability : CapabilityBits
  pub scope_bits : ℕ

unfoldable pub from_remote : RemoteDep → EmittedAuth
from_remote dep = record {
  source_root = dep.source_authority;
  class = dep.emitted_class;
  capability = dep.capability;
  scope_bits = dep.causal_scope.scope_bits;
}

unfoldable pub from_local : CompiledEdgeLabel → PartitionDecl → EmittedAuth
from_local label partition = record {
  source_root = partition.authority_root;
  class = partition.lattice_class;
  capability = label.capability;
  scope_bits = label.causal_scope_bits;
}

abbrev pub unbound : EmittedAuth
unbound = record { source_root = 0; class = bottom; capability = max64; scope_bits = max64 }

pub data GateReason : Type 0 where
  capability_denied : CapabilityBits → CapabilityBits → GateReason
  scope_violation : ℕ → ℕ → GateReason
  lattice_violation : LatticeClass → LatticeClass → GateReason
  unbound_source : GateReason

-- `None` is `Ok(())`, and `Some` the reason of an `Err`.
unfoldable pub authority_gate : CompiledEdgeLabel → EmittedAuth → Option GateReason
unfolding allows scope_contains flows_to
authority_gate compiled emitted =
    if not (allows compiled.capability emitted.capability)
    then some (capability_denied compiled.capability emitted.capability)
    else if not (
        scope_contains (record { scope_bits = compiled.causal_scope_bits; root = 0 })
          emitted.scope_bits)
    then some (scope_violation compiled.causal_scope_bits emitted.scope_bits)
    else if not (flows_to emitted.class compiled.lattice_class)
    then some (lattice_violation compiled.lattice_class emitted.class)
    else none

abbrev pub PartitionRegistry : Type 0
PartitionRegistry = Map ℕ PartitionDecl

unfoldable pub register : PartitionDecl → PartitionRegistry → PartitionRegistry
register decl r = insert decl.id decl r

abbrev pub narrow : Option PartitionDecl → CompiledEdgeLabel → CompiledEdgeLabel
narrow none label = label
narrow (some decl) label = record label {
  causal_scope_bits = bit_and label.causal_scope_bits decl.causal_domain.scope_bits;
}

abbrev pub decl_of : Option ℕ → PartitionRegistry → Option PartitionDecl
decl_of none r = none
decl_of (some pid) r = get pid r

unfoldable pub compile_label : EdgeLabel → Option ℕ → PartitionRegistry → CompiledEdgeLabel
unfolding compile
compile_label label source_partition r = narrow (decl_of source_partition r) (compile label)

pub data AuthorityMode : Type 0 where
  advisory audit enforced : AuthorityMode

pub data UnboundPolicy : Type 0 where
  allow audit_only deny : UnboundPolicy

unfoldable pub default_for : AuthorityMode → UnboundPolicy
default_for advisory = allow
default_for audit = audit_only
default_for enforced = deny
