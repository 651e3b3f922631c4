-- ===== src/Graph.antt =====
-- The graph store of core-rs/src/graph.rs, and the `Edge` of core-rs/src/node.rs.
use Prim.Native.String.{String}
use pgress.Prelude.{
  ℕ, ◌||◌, List, [], ◌∷◌, Option, eqb, if◌then◌else◌, Map, get, insert, remove, modify, nat_eq,
}
use pgress.Prelude.Sorting.{sort}
use pgress.Attr.{Attrs}
use pgress.Node.{Node}
use pgress.Partition.{DepKind}

pub record Edge : Type 0 where
  pub id : ℕ
  pub typ : String
  pub src : ℕ
  pub tgt : ℕ
  pub dep : DepKind
  pub attrs : Attrs

pub record Graph : Type 0 where
  pub nodes : Map ℕ Node
  pub edges : Map ℕ Edge

abbrev pub empty : Graph
empty = record { nodes = []; edges = [] }

unfoldable pub add_node : Node → Graph → Graph
add_node node g = record g { nodes = insert node.id node g.nodes }

unfoldable pub remove_node : ℕ → Graph → Graph
remove_node id g = record g { nodes = remove id g.nodes }

unfoldable pub node : ℕ → Graph → Option Node
node id g = get id g.nodes

-- A write through `node_mut`.
unfoldable pub update_node : ℕ → (Node → Node) → Graph → Graph
update_node id f g = record g { nodes = modify id f g.nodes }

unfoldable pub add_edge : Edge → Graph → Graph
add_edge e g = record g { edges = insert e.id e g.edges }

unfoldable pub remove_edge : ℕ → Graph → Graph
remove_edge id g = record g { edges = remove id g.edges }

unfoldable pub edge : ℕ → Graph → Option Edge
edge id g = get id g.edges

abbrev pub incident : ℕ → Map ℕ Edge → List ℕ
incident n [] = []
incident n ((k, e) ∷ es) =
    if eqb e.src n || eqb e.tgt n then e.id ∷ incident n es else incident n es

-- The ids of the edges at a node, sorted.
unfoldable pub dangling_edges : ℕ → Graph → List ℕ
dangling_edges n g = sort (incident n g.edges)
