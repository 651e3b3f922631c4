-- ===== src/Engine/Layers.antt =====
-- The layer contract of core-rs/src/isa.rs, on `apply` of core-rs/src/engine.rs.
use pgress.Prelude.{
  ℕ, ◌≡◌, ◌⊎◌, refl, ap, subst, ◌∙◌, inl, inr, Bool, true, false, List, [], ◌∷◌, Option, none, some,
  length, ltb, eqb, if◌then◌else◌, Bool-cases, Option-cases, insert, get-insert, get-remove, nat_eq,
}
use mathlib.Core.Option
use Prim.Native.String.{String}
use pgress.Attr.{Attrs}
use pgress.Node.{NodeKind, ExecMode, fresh_node}
use pgress.Graph
use pgress.Graph.{Graph, node, add_node, add_edge, edge, Edge, dangling_edges}
use pgress.Partition.{DepKind, PartitionDecl, is_remote}
use pgress.Deps.Epochs.{max_epoch_for_nodes}
use pgress.Values.{words}
use pgress.Region.{
  RegionBoundary, StabilityContract, CompiledRegion, eager, lazy, never, CompilePolicy,
}
use pgress.Isa.{
  IsaOp, node_create, edge_connect, subscribe_op, set_value_op, propagate, del_node, del_edge,
  demand_op, set_mode_op, reflect_op, stabilize_op, partition_create, partition_bind,
  set_partition_authority, set_edge_label, set_stabilization_config, set_execution_policy,
  region_declare, touches_layers, id_only,
}
use pgress.Egraph.Stabilize.{Saturation}
use pgress.Engine.{Engine, Reply, log}
use pgress.Engine.Compile.{compile_region}
use pgress.Engine.Settle.{recompile_edges_for_node, narrow_with}
use pgress.Engine.Operations.{
  create_node, place_node, widened, connect_edge, subscribe_nodes, link, is_none, set_node_mode,
  finish,
}
use pgress.Engine.Deletion.{drop_edge, drop_edges, unlink, delete_node, some_remote, delete_edge}
use pgress.Engine.Apply.{
  create_partition, bind_partition, set_authority, label_edge, region_members, compile_now,
  keep_region, declare_region, dispatch, apply,
}

abbrev pub creates : IsaOp → ℕ → Bool
creates (node_create id typ rule attrs) j = eqb id j
creates _ j = false

abbrev pub deletes : IsaOp → ℕ → Bool
deletes (del_node id) j = eqb id j
deletes _ j = false

abbrev pub After : (Engine → Type 0) → Option (Reply × Engine) → Type 0
After P none = Unit
After P (some (r, e)) = P e

-- Node `j` is as it was, or the operation has deleted it.
abbrev Kept : IsaOp → ℕ → Engine → Engine → Type 0
Kept op j e e' =
    (node j e'.world.graph ≡ node j e.world.graph)
    ⊎ (deletes op j ≡ true) × (node j e'.world.graph ≡ none)

graph-widened : (e : Engine) → (widened e).world.graph ≡ e.world.graph
graph-widened e =
    elim (Bool-cases (ltb (length e.dirty_slots) (words (length e.world.values.cache)))) [
      | inl wider ↦ rw wider refl
      | inr same_width ↦ rw same_width refl
    ]

graph-drop_edges :
    (ids : List ℕ) (j : ℕ) (e : Engine)
    → node j (drop_edges ids e).world.graph ≡ node j e.world.graph
unfolding drop_edges unlink node Graph.remove_edge
graph-drop_edges [] j e = refl
graph-drop_edges (id ∷ ids) j e =
    graph-drop_edges ids j (drop_edge id (edge id e.world.graph) e)
    ∙ elim (Option-cases (edge id e.world.graph)) [
      | inl gone ↦ rw gone refl
      | inr (x, f) ↦ rw f refl
    ]

graph-narrow_with :
    (id : ℕ) (decl : Option PartitionDecl) (e : Engine)
    → (narrow_with id decl e).world.graph ≡ e.world.graph
graph-narrow_with id none e = refl
graph-narrow_with id (some decl) e = refl

graph-recompile :
    (id : ℕ) (e : Engine) → (recompile_edges_for_node id e).world.graph ≡ e.world.graph
unfolding recompile_edges_for_node
graph-recompile id e = graph-narrow_with id _ e

graph-keep_region :
    (root : ℕ) (stability : StabilityContract) (region : Option CompiledRegion) (e : Engine)
    → (keep_region root stability region e).world.graph ≡ e.world.graph
graph-keep_region root stability none e = refl
graph-keep_region root stability (some region) e = refl

graph-compile_now :
    (root : ℕ) (stability : StabilityContract) (compile : CompilePolicy) (members : List ℕ)
    (e : Engine)
    → (compile_now root stability compile members e).world.graph ≡ e.world.graph
graph-compile_now root stability lazy members e = refl
graph-compile_now root stability never members e = refl
graph-compile_now root stability eager members e =
    graph-keep_region root stability
      (compile_region members e.world.graph e.world.deps e.world.values
        (max_epoch_for_nodes members e.world.deps))
      e

place_node-other :
    (id j : ℕ) (typ : String) (kind : NodeKind) (attrs : Attrs) (e : Engine)
    → eqb id j ≡ false
    → node j (place_node id typ kind attrs e).world.graph ≡ node j e.world.graph
unfolding place_node node add_node
place_node-other id j typ kind attrs e other =
    get-insert j id (record (fresh_node id typ kind) { attrs = attrs }) e.world.graph.nodes
    ∙ rw other refl

create_node-other :
    (id j : ℕ) (typ : String) (kind : NodeKind) (attrs : Attrs) (e : Engine)
    → eqb id j ≡ false
    → node j (create_node id typ kind attrs e).world.graph ≡ node j e.world.graph
unfolding create_node log
create_node-other id j typ kind attrs e other =
    ap (node j) (graph-widened (place_node id typ kind attrs e))
    ∙ place_node-other id j typ kind attrs e other

connect_edge-same :
    (id src tgt j : ℕ) (typ : String) (dep : DepKind) (e : Engine)
    → node j (connect_edge id typ src tgt dep e).1.world.graph ≡ node j e.world.graph
unfolding connect_edge node add_edge link log
connect_edge-same id src tgt j typ dep e = elim (Bool-cases (is_none (node src e.world.graph))) [
  | inl missing ↦ rw missing refl
  | inr found ↦ rw found (elim (Bool-cases (is_none (node tgt e.world.graph))) [
    | inl missing ↦ rw missing refl
    | inr both ↦ rw both refl
  ])
]

delete_edge-same :
    (id j : ℕ) (e : Engine) → node j (delete_edge id e).1.world.graph ≡ node j e.world.graph
unfolding delete_edge unlink log node Graph.remove_edge
delete_edge-same id j e = elim (Option-cases (edge id e.world.graph)) [
  | inl gone ↦ rw gone refl
  | inr (x, f) ↦
      rw f (elim (Bool-cases (is_remote x.dep)) [ inl far ↦ rw far refl | inr near ↦ rw near refl ])
]

set_node_mode-same :
    (id j : ℕ) (mode : ExecMode) (e : Engine)
    → node j (set_node_mode id mode e).1.world.graph ≡ node j e.world.graph
unfolding set_node_mode log
set_node_mode-same id j mode e = elim (Bool-cases (is_none (node id e.world.graph))) [
  | inl missing ↦ rw missing refl
  | inr found ↦ rw found refl
]

delete_node-Kept :
    (id j : ℕ) (e : Engine)
    → (node j (delete_node id e).1.world.graph ≡ node j e.world.graph)
      ⊎ (eqb id j ≡ true) × (node j (delete_node id e).1.world.graph ≡ none)
unfolding delete_node log
delete_node-Kept id j e =
    let ids = dangling_edges id e.world.graph in
    let g = (drop_edges ids e).world.graph in
    let look : node j (Graph.remove_node id g) ≡ (if eqb id j then none else node j g) =
      (unfold node Graph.remove_node in get-remove j id g.nodes) in
    elim (Bool-cases (some_remote ids e.world.graph)) [
      | inl far ↦ rw far (inl refl)
      | inr near ↦ rw near (elim (Bool-cases (eqb id j)) [
        | inl hit ↦ inr (hit, look ∙ rw hit refl)
        | inr miss ↦ inl (look ∙ rw miss (graph-drop_edges ids j e))
      ])
    ]

declare_region-Kept :
    (root : ℕ) (boundary : RegionBoundary) (stability : StabilityContract) (compile : CompilePolicy)
    (j : ℕ) (e : Engine)
    → After
        (Kept (region_declare root boundary stability compile) j e)
        (Option.map finish (declare_region root boundary stability compile e))
unfolding declare_region log
declare_region-Kept root boundary stability compile j e =
    elim (Option-cases (region_members root boundary e)) [
      | inl stuck ↦ rw stuck tt
      | inr (members, found) ↦ rw found (
          inl (
            ap (node j) (
              graph-compile_now root stability compile members (record e {
                region_cache = record e.region_cache {
                  contracts = insert root stability e.region_cache.contracts;
                };
              }))))
    ]

module _ (saturate : Saturation) (rounds : ℕ) where
  dispatch-Kept :
      (op : IsaOp) (j : ℕ) (e : Engine)
      → touches_layers op ≡ id_only
      → creates op j ≡ false
      → After (Kept op j e) (dispatch saturate rounds op e)
  unfolding dispatch
  dispatch-Kept (node_create id typ rule attrs) j e layer other =
      inl (create_node-other id j typ rule attrs e other)
  dispatch-Kept (edge_connect id typ src tgt dep) j e layer other =
      inl (connect_edge-same id src tgt j typ dep e)
  dispatch-Kept (subscribe_op source subscriber) j e layer other =
      inl (unfold subscribe_nodes link log in refl)
  dispatch-Kept (set_value_op id val) j e layer other = cc
  dispatch-Kept (propagate id) j e layer other = cc
  dispatch-Kept (del_node id) j e layer other = delete_node-Kept id j e
  dispatch-Kept (del_edge id) j e layer other = inl (delete_edge-same id j e)
  dispatch-Kept (demand_op id) j e layer other = cc
  dispatch-Kept (set_mode_op id mode) j e layer other = inl (set_node_mode-same id j mode e)
  dispatch-Kept (reflect_op id) j e layer other = cc
  dispatch-Kept (stabilize_op region) j e layer other = cc
  dispatch-Kept (partition_create id root lattice_class domain) j e layer other =
      inl (unfold create_partition log in refl)
  dispatch-Kept (partition_bind id partition) j e layer other =
      inl (unfold bind_partition log in ap (node j) (graph-recompile id _))
  dispatch-Kept (set_partition_authority partition lattice_class domain) j e layer other =
      inl (unfold set_authority log in refl)
  dispatch-Kept (set_edge_label source target label) j e layer other =
      inl (unfold label_edge log in refl)
  dispatch-Kept (set_stabilization_config id config) j e layer other = inl (unfold log in refl)
  dispatch-Kept (set_execution_policy id policy) j e layer other = inl (unfold log in refl)
  dispatch-Kept (region_declare root boundary stability compile) j e layer other =
      declare_region-Kept root boundary stability compile j e

-- The layer contract: when an operation of the identity layer returns, every node but one that it
-- creates itself has the record that it had, with its value, version and attributes, or has been
-- deleted by it.
pub apply-Kept :
    (saturate : Saturation) (rounds : ℕ) (op : IsaOp) (j : ℕ) (e e' : Engine) (r : Reply)
    → touches_layers op ≡ id_only
    → creates op j ≡ false
    → apply saturate rounds op e ≡ some (r, e')
    → (node j e'.world.graph ≡ node j e.world.graph)
      ⊎ (deletes op j ≡ true) × (node j e'.world.graph ≡ none)
unfolding apply
apply-Kept saturate rounds op j e e' r layer other h = subst (After (Kept op j e)) h (
    dispatch-Kept saturate rounds op j (record e { prop = record e.prop { events = [] } }) layer
      other)
