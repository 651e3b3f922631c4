-- ===== src/Propagate/Coherent.antt =====
-- The dense cache mirrors the graph through every drain.
use pgress.Prelude.{
  ℕ, ◌≡◌, refl, arith, some, if◌then◌else◌, inl, inr, Bool-cases, Option-cases, get, get-modify,
  nat_eq, eqb, eqb_iff,
}
use mathlib.Core.Option
use pgress.Ternary.{T, same}
use pgress.Ternary.Algebra.{same→eq}
use pgress.Graph.{Graph, node, update_node}
use pgress.Node.{Node, NodeKind, computed, ComputeRule}
use pgress.Node
use pgress.Values.{ValueStore, dense_index, get_value, set_by_dense}
use pgress.Values
use pgress.Values.Slots.{IsStore, set_value-IsStore, get_value-set_value}
use pgress.Propagate.{World}
use pgress.Propagate.Written.{Topology, settled}
use pgress.Propagate.Kept.{drain-keeps}
use pgress.Propagate.Drain.{PropEngine, Config, drain}

-- Every node that has a slot has there the value that the graph has for it.
pub record IsCoherent (g : Graph) (vs : ValueStore) : Type 0 where
  pub store : IsStore vs
  pub mirror :
      (j : ℕ) (n : Node) (d : ℕ)
      → node j g ≡ some n
      → dense_index j vs ≡ some d
      → get_value j vs ≡ n.value

dense_index-set_value :
    (id j : ℕ) (v : T) (vs : ValueStore)
    → dense_index j (Values.set_value id v vs) ≡ dense_index j vs
unfolding dense_index Values.set_value set_by_dense
dense_index-set_value id j v vs = elim (Option-cases (get id vs.idx)) [
  | inl e ↦ rw e refl
  | inr (d, e) ↦ rw e refl
]

pub node-update_node :
    (id j : ℕ) (f : Node → Node) (g : Graph)
    → node j (update_node id f g) ≡ (if eqb id j then Option.map f (node j g) else node j g)
unfolding node update_node
node-update_node id j f g = get-modify j id f g.nodes

pub value_of-set_value : (v : T) (n : Node) → (Node.set_value v n).0.value ≡ v
unfolding Node.set_value
value_of-set_value v n = ground (arith, same→eq v n.value)

write-IsCoherent :
    (id : ℕ) (new : T) (g : Graph) (vs : ValueStore)
    → IsCoherent g vs
    → IsCoherent (update_node id (λ n. (Node.set_value new n).0) g) (Values.set_value id new vs)
write-IsCoherent id new g vs c = record {
  store = set_value-IsStore id new vs c.store;
  mirror = λ j n d e f. elim (Option-cases (node j g)) [
    | inl h ↦ ground (arith, h, node-update_node id j (λ n. (Node.set_value new n).0) g)
    | inr (m, h) ↦ ground (
      arith,
      h,
      node-update_node id j (λ n. (Node.set_value new n).0) g,
      get_value-set_value id j new vs c.store,
      dense_index-set_value id j new vs,
      eqb_iff id j,
      value_of-set_value new m,
      c.mirror j m d h,
    )
  ];
}

abbrev Mirrored : Graph × ValueStore × Topology → Type 0
Mirrored (g, vs, t) = IsCoherent g vs

settled-Mirrored :
    (id : ℕ) (n : Node) (rule : ComputeRule) (new : T) (s : Graph × ValueStore × Topology)
    → node id s.0 ≡ some n
    → n.kind ≡ computed rule
    → Mirrored s
    → Mirrored (settled id n.value new s)
settled-Mirrored id n rule new (g, vs, t) e f c = elim (Bool-cases (same new n.value)) [
  | inl h ↦ rw h c
  | inr h ↦ rw h (write-IsCoherent id new g vs c)
]

-- A drain of any queue keeps the value store well-formed and equal to the graph on every node that
-- has a slot, whether it ends well or at the limit.
pub drain-IsCoherent :
    (c : Config) (max_steps : ℕ) (e : PropEngine) (w : World)
    → IsCoherent w.graph w.values
    → IsCoherent (drain c max_steps e w).2.graph (drain c max_steps e w).2.values
drain-IsCoherent c max_steps e w = drain-keeps Mirrored settled-Mirrored c max_steps e w
