-- ===== src/Isa.antt =====
-- The instruction set of core-rs/src/isa.rs.
use Prim.Native.String.{String}
use pgress.Prelude.{ℕ, List, Option}
use pgress.Ternary.{T}
use pgress.Attr.{Attrs}
use pgress.Node.{NodeKind, ExecMode}
use pgress.Node.Policy.{StabilizationConfig, ExecutionPolicy}
use pgress.Partition.{CausalScope, DepKind, EdgeLabel, LatticeClass}
use pgress.Region.{RegionBoundary, StabilityContract, CompilePolicy}

pub data IsaOp : Type 0 where
  node_create : (id : ℕ) (typ : String) (rule : NodeKind) (attrs : Attrs) → IsaOp
  edge_connect : (id : ℕ) (typ : String) (src tgt : ℕ) (dep : DepKind) → IsaOp
  subscribe_op : (source subscriber : ℕ) → IsaOp
  set_value_op : (node : ℕ) (val : T) → IsaOp
  propagate : (node : ℕ) → IsaOp
  del_node : (id : ℕ) → IsaOp
  del_edge : (id : ℕ) → IsaOp
  demand_op : (node : ℕ) → IsaOp
  set_mode_op : (node : ℕ) (mode : ExecMode) → IsaOp
  reflect_op : (node : ℕ) → IsaOp
  stabilize_op : (region : Option (List ℕ)) → IsaOp
  partition_create :
      (id authority_root : ℕ) (lattice_class : LatticeClass) (causal_domain : CausalScope) → IsaOp
  partition_bind : (node partition : ℕ) → IsaOp
  set_partition_authority :
      (partition : ℕ) (lattice_class : LatticeClass) (causal_domain : CausalScope) → IsaOp
  set_edge_label : (source target : ℕ) (label : EdgeLabel) → IsaOp
  set_stabilization_config : (node : ℕ) (config : StabilizationConfig) → IsaOp
  set_execution_policy : (node : ℕ) (policy : ExecutionPolicy) → IsaOp
  region_declare :
      (root : ℕ) (boundary : RegionBoundary) (stability : StabilityContract)
      (compile : CompilePolicy)
      → IsaOp

pub data PrimitiveClass : Type 0 where
  extension inhibition reflection : PrimitiveClass

abbrev pub primitive_class : IsaOp → PrimitiveClass
primitive_class (del_node id) = inhibition
primitive_class (del_edge id) = inhibition
primitive_class (demand_op node) = inhibition
primitive_class (set_mode_op node mode) = inhibition
primitive_class (reflect_op node) = reflection
primitive_class (stabilize_op region) = reflection
primitive_class _ = extension

pub data LayerTouch : Type 0 where
  id_only interp_only both : LayerTouch

abbrev pub touches_layers : IsaOp → LayerTouch
touches_layers (set_value_op node val) = interp_only
touches_layers (reflect_op node) = interp_only
touches_layers (stabilize_op region) = interp_only
touches_layers (propagate node) = interp_only
touches_layers (demand_op node) = interp_only
touches_layers _ = id_only
