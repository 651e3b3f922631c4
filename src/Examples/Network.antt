-- ===== src/Examples/Network.antt =====
-- Partitions, labels and the dependency registry at concrete inputs.
use pgress.Prelude.{
  false, ℕ, ◌≡◌, refl, ◌↔◌, ◌<◌, true, [], ◌∷◌, none, some, get, nat_eq, insert, ◌+◌, ◌^◌, arith,
}
use pgress.Prelude.Sorting.{member}
use pgress.Prelude.Words.{max64}
use pgress.Dims.{TimeDim, contains}
use pgress.Time.{ProductTime, origin, get_dim}
use pgress.Partition.{
  CompiledEdgeLabel, EdgeLabel, EmittedAuth, PartitionDecl, permissive, permissive_default, compile,
  compile_label, authority_gate, flows_to, enforced, deny,
}
use pgress.Partition.Gate.{Within, authority_gate_iff}
use pgress.Partition.Registry.{compile_label-narrows}
use pgress.Deps.{
  remove_node, adj_epoch, bump_epoch, deps_of, subs_of, DepRegistry, new, subscribe_with_meta,
  subscribe_with_meta_indexed, unsubscribe, compiled_label,
}
use pgress.Deps.Epochs.{IsFresh, max_epoch_for_nodes, max_epoch_for_nodes-grows}
use pgress.Deps.Removal.{remove_node-Mirrors}
use pgress.Deps.Registry.{Mirrors, subscribe-Mirrors}
use pgress.Deps.Window.{default_meta, should_propagate, should_propagate_iff}
use pgress.Propagate.Auth.{AuthContext, try_auth}
use pgress.Propagate.Gated.{try_auth-enforced}

abbrev zone : PartitionDecl
zone = record {
  id = 3;
  authority_root = 9;
  lattice_class = 0b01;
  causal_domain = record { scope_bits = 0b0111; root = 9 };
}

abbrev narrow_label : CompiledEdgeLabel
narrow_label = record permissive_default { capability = 0b0011; lattice_class = 0b11 }

abbrev emission : EmittedAuth
emission = record { source_root = 9; class = 0b01; capability = 0b0001; scope_bits = 0b0100 }

authority_gate_example :
    (authority_gate narrow_label emission ≡ none)
    ↔ (Within 0b0001 0b0011 × Within 0b0100 max64 × Within 0b01 0b11)
authority_gate_example = authority_gate_iff narrow_label emission

abbrev wide_label : EdgeLabel
wide_label = record permissive { lattice_class = 0b11 }

emission_passes :
    authority_gate (compile_label wide_label (some 3) ((3, zone) ∷ [])) emission ≡ none
unfolding authority_gate compile_label get
emission_passes = refl

narrows_example : authority_gate (compile wide_label) emission ≡ none
narrows_example =
    compile_label-narrows wide_label (some 3) ((3, zone) ∷ []) emission emission_passes

abbrev linked : DepRegistry
linked = subscribe_with_meta 1 2 default_meta new

new-Mirrors : Mirrors new
unfolding deps_of subs_of get member
new-Mirrors s t = refl

abbrev moved : ProductTime
moved = record origin { at_attribute = 1 }

should_propagate_example : (should_propagate default_meta moved ≡ true) ↔ (
    (dim : TimeDim) × (contains default_meta.label.projection_mask.dims dim ≡ true)
    × (get_dim dim origin < get_dim dim moved))
should_propagate_example = should_propagate_iff default_meta moved

abbrev strict : AuthContext
strict = record {
  mode = enforced;
  unbound_policy = deny;
  node_partitions = (1, 3) ∷ [];
  partition_decls = (3, zone) ∷ [];
}

try_auth-enforced_example :
    ((try_auth 1 2 linked (some strict)).0 ≡ true)
    ↔ (flows_to 0b01 (compiled_label 1 2 linked).lattice_class ≡ true)
unfolding get
try_auth-enforced_example = try_auth-enforced 1 2 linked strict zone refl refl

linked-IsFresh : IsFresh linked
unfolding adj_epoch subscribe_with_meta bump_epoch get insert
linked-IsFresh n = ground arith

linked_counter : linked.adj_epoch_counter + 2 < 2 ^ 64
unfolding subscribe_with_meta bump_epoch
linked_counter = omega arith

max_epoch_for_nodes_example :
    (max_epoch_for_nodes (5 ∷ 2 ∷ []) linked
      < max_epoch_for_nodes (5 ∷ 2 ∷ []) (subscribe_with_meta 3 2 default_meta linked))
    × (max_epoch_for_nodes (5 ∷ 2 ∷ []) linked
        < max_epoch_for_nodes (5 ∷ 2 ∷ []) (subscribe_with_meta_indexed 3 2 7 default_meta linked))
    × (max_epoch_for_nodes (5 ∷ 2 ∷ []) linked
        < max_epoch_for_nodes (5 ∷ 2 ∷ []) (unsubscribe 3 2 linked))
unfolding member
max_epoch_for_nodes_example =
    max_epoch_for_nodes-grows 3 2 7 2 (5 ∷ 2 ∷ []) default_meta linked linked_counter linked-IsFresh
      refl refl

remove_node-Mirrors_example :
    Mirrors (remove_node 1 linked)
    × ((t : ℕ)
        → (member t (deps_of 1 (remove_node 1 linked)) ≡ false)
          × (member 1 (deps_of t (remove_node 1 linked)) ≡ false))
remove_node-Mirrors_example =
    remove_node-Mirrors 1 linked (subscribe-Mirrors 1 2 default_meta new new-Mirrors)
