-- ===== src/Propagate/Identity.antt =====
-- A drain changes no node's identity, no input node, no edge and no dependency.
use pgress.Prelude.{ℕ, ◌≡◌, refl, arith, some, inl, inr, Bool-cases, Option-cases, nat_eq, eqb_iff}
use mathlib.Core.Option
use Prim.Native.String.{String}
use pgress.Ternary.{T, same}
use pgress.Attr.{Attrs}
use pgress.Graph.{Graph, node, update_node}
use pgress.Node.{Node, NodeKind, input, computed, ComputeRule}
use pgress.Node
use pgress.Values.{ValueStore}
use pgress.Propagate.{World}
use pgress.Propagate.Written.{Topology, topology, settled}
use pgress.Propagate.Kept.{drain-keeps}
use pgress.Propagate.Coherent.{node-update_node}
use pgress.Propagate.Drain.{PropEngine, Config, drain}

-- A node without its value and its version.
pub record Layer : Type 0 where
  pub id : ℕ
  pub typ : String
  pub kind : NodeKind
  pub attrs : Attrs

abbrev pub layer : Node → Layer
layer n = record { id = n.id; typ = n.typ; kind = n.kind; attrs = n.attrs }

layer-set_value : (v : T) (n : Node) → layer (Node.set_value v n).0 ≡ layer n
unfolding Node.set_value
layer-set_value v n = elim (Bool-cases (same v n.value)) [ inl e ↦ rw e refl | inr e ↦ rw e refl ]

-- What a graph, with its topology, keeps of another.
pub record Kept (g : Graph) (t : Topology) (g' : Graph) (t' : Topology) : Type 0 where
  pub layers : (j : ℕ) → Option.map layer (node j g') ≡ Option.map layer (node j g)
  pub inputs : (j : ℕ) (n : Node) → node j g ≡ some n → n.kind ≡ input → node j g' ≡ some n
  pub edges : g'.edges ≡ g.edges
  pub topologies : t' ≡ t

abbrev KeptFrom : Graph → Topology → Graph × ValueStore × Topology → Type 0
KeptFrom g t (g', vs, t') = Kept g t g' t'

write-Kept :
    (g : Graph) (t : Topology) (id : ℕ) (n : Node) (rule : ComputeRule) (new : T) (g' : Graph)
    (t' : Topology)
    → node id g' ≡ some n
    → n.kind ≡ computed rule
    → Kept g t g' t'
    → Kept g t (update_node id (λ n. (Node.set_value new n).0) g') t'
write-Kept g t id n rule new g' t' e f k = record {
  layers = λ j. elim (Option-cases (node j g')) [
    | inl h ↦
        ground (arith, h, node-update_node id j (λ n. (Node.set_value new n).0) g', k.layers j)
    | inr (m, h) ↦ ground (
      arith,
      h,
      node-update_node id j (λ n. (Node.set_value new n).0) g',
      layer-set_value new m,
      k.layers j,
    )
  ];
  inputs = λ j m p q. ground (
    arith,
    node-update_node id j (λ n. (Node.set_value new n).0) g',
    k.inputs j m p q,
    eqb_iff id j,
  );
  edges = (unfold update_node in k.edges);
  topologies = k.topologies;
}

settled-KeptFrom :
    (g : Graph) (t : Topology) (id : ℕ) (n : Node) (rule : ComputeRule) (new : T)
    (s : Graph × ValueStore × Topology)
    → node id s.0 ≡ some n
    → n.kind ≡ computed rule
    → KeptFrom g t s
    → KeptFrom g t (settled id n.value new s)
settled-KeptFrom g t id n rule new (g', vs, t') e f k = elim (Bool-cases (same new n.value)) [
  | inl h ↦ rw h k
  | inr h ↦ rw h (write-Kept g t id n rule new g' t' e f k)
]

-- A drain of any queue changes no node's id, type, kind or attributes, adds and removes none, leaves
-- every input node as it is, with its value and version, and leaves the edges of the graph and the
-- dependencies, subscribers, modes and epochs of the registry as they are.
pub drain-Kept :
    (c : Config) (max_steps : ℕ) (e : PropEngine) (w : World)
    → Kept w.graph
        (topology w.deps)
        (drain c max_steps e w).2.graph
        (topology (drain c max_steps e w).2.deps)
drain-Kept c max_steps e w =
    drain-keeps (KeptFrom w.graph (topology w.deps)) (settled-KeptFrom w.graph (topology w.deps)) c
      max_steps e w
      (record { layers = λ j. refl; inputs = λ j n p q. p; edges = refl; topologies = refl })
