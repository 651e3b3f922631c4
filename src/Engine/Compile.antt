-- ===== src/Engine/Compile.antt =====
-- The region compiler of core-rs/src/engine.rs: `bfs_dep_closure` and `compile_region`. Both `while`
-- loops run on fuel. Kahn's loop takes one step for each member: if its queue is not empty after
-- that, the order is longer than the members, and the source gives `None` as it does here.
use mathlib.Core.Option
use pgress.Prelude.{
  ◌>>=◌, ℕ, zero, suc, ◌+◌, ◌-◌, ◌%◌, ◌^◌, not, ◌&&◌, List, [], ◌∷◌, ◌++◌, Option, none, some,
  length, ltb, eqb, if◌then◌else◌, Map, get, insert, nat_eq,
}
use pgress.Prelude.Sorting.{sort, member, add}
use pgress.Node.{Node, ComputeRule, identity, rule_of}
use pgress.Graph.{Graph, node}
use pgress.Deps.{DepRegistry, deps_of, subs_of, ordered_dep_indices_of}
use pgress.Values.{ValueStore, dense_index}
use pgress.Region.{CompiledRegion}
use pgress.Region.Index.{u32, build_region_inv}
use pgress.Egraph.Section.{dep_total}

-- The dependencies that are new, queued at the depth, and the set of visited nodes with them.
unfoldable pub visit_deps : ℕ → List ℕ → List ℕ → List (ℕ × ℕ) → List ℕ × List (ℕ × ℕ)
unfolding member add
visit_deps depth [] visited queue = (visited, queue)
visit_deps depth (dep ∷ deps) visited queue =
    if member dep visited
    then visit_deps depth deps visited queue
    else visit_deps depth deps (add dep visited) (queue ++ (dep, depth) ∷ [])

-- `none` if the fuel runs out.
unfoldable pub closure : DepRegistry → ℕ → ℕ → List ℕ → List (ℕ × ℕ) → List ℕ → Option (List ℕ)
unfolding visit_deps deps_of sort
closure deps max_depth fuel visited [] result = some result
closure deps max_depth zero visited (entry ∷ queue) result = none
closure deps max_depth (suc fuel) visited ((id, depth) ∷ queue) result =
    let next =
      if ltb depth max_depth
      then visit_deps (depth + 1) (sort (deps_of id deps)) visited queue
      else (visited, queue) in
    closure deps max_depth fuel next.0 next.1 (result ++ id ∷ [])

unfoldable pub bfs_dep_closure : ℕ → ℕ → DepRegistry → Option (List ℕ)
unfolding closure
bfs_dep_closure root max_depth deps =
    closure deps max_depth (suc (dep_total deps.deps)) (root ∷ []) ((root, 0) ∷ []) []

abbrev pub inside : List ℕ → List ℕ → List ℕ
inside members [] = []
inside members (id ∷ ids) =
    if member id members then id ∷ inside members ids else inside members ids

-- `in_degree`.
abbrev pub degrees : List ℕ → List ℕ → DepRegistry → Map ℕ ℕ → Map ℕ ℕ
degrees members [] deps m = m
degrees members (id ∷ ids) deps m =
    degrees members ids deps (insert id (length (inside members (deps_of id deps))) m)

abbrev pub ready_ids : Map ℕ ℕ → List ℕ
ready_ids [] = []
ready_ids ((id, d) ∷ m) = if eqb d 0 then id ∷ ready_ids m else ready_ids m

-- `*d -= 1` on a `usize`.
abbrev pub dec64 : ℕ → ℕ
dec64 d = (d + (2 ^ 64 - 1)) % 2 ^ 64

-- The inner loop of Kahn's algorithm; `none` if a subscriber has no degree.
unfoldable pub release : List ℕ → Map ℕ ℕ → List ℕ → Option (Map ℕ ℕ × List ℕ)
unfolding get insert
release [] in_degree queue = some (in_degree, queue)
release (sub ∷ subs) in_degree queue = do
  d ← get sub in_degree
  release subs (insert sub (dec64 d) in_degree)
      (if eqb (dec64 d) 0 then queue ++ sub ∷ [] else queue)

unfoldable pub kahn : List ℕ → DepRegistry → ℕ → Map ℕ ℕ → List ℕ → List ℕ → Option (List ℕ)
unfolding release subs_of sort
kahn members deps fuel in_degree [] topo = some topo
kahn members deps zero in_degree (id ∷ queue) topo = none
kahn members deps (suc fuel) in_degree (id ∷ queue) topo = do
  next ← release (sort (inside members (subs_of id deps))) in_degree queue
  kahn members deps fuel next.0 next.1 (topo ++ id ∷ [])

unfoldable pub topo_sort : List ℕ → DepRegistry → Option (List ℕ)
unfolding kahn insert deps_of
topo_sort members deps = do
  let in_degree = degrees members members deps []
  topo ← kahn members deps (length members) in_degree (sort (ready_ids in_degree)) []
  if eqb (length topo) (length members) then some topo else none

-- The vectors that the loop over the order fills.
pub record Csr : Type 0 where
  pub dep_offsets : List ℕ
  pub dep_cols : List ℕ
  pub rules : List ComputeRule
  pub outputs : List ℕ
  pub inputs_seen : List ℕ
  pub inputs : List ℕ

abbrev pub empty_csr : Csr
empty_csr = record {
  dep_offsets = 0 ∷ [];
  dep_cols = [];
  rules = [];
  outputs = [];
  inputs_seen = [];
  inputs = [];
}

-- One column.
unfoldable pub push_col : ℕ → Csr → Csr
unfolding member add
push_col di c = record c {
  dep_cols = c.dep_cols ++ di ∷ [];
  inputs_seen = add di c.inputs_seen;
  inputs =
      if not (member di c.inputs_seen) && not (member di c.outputs)
      then c.inputs ++ di ∷ []
      else c.inputs;
}

abbrev pub push_cols : List ℕ → Csr → Csr
push_cols [] c = c
push_cols (di ∷ dis) c = push_cols dis (push_col di c)

-- The slots of the dependencies, where no index is stored.
unfoldable pub slots_of : List ℕ → ValueStore → Option (List ℕ)
unfolding dense_index
slots_of [] vs = some []
slots_of (id ∷ ids) vs = do slot ← dense_index id vs; slots ← slots_of ids vs; some (slot ∷ slots)

abbrev pub cols_of : List ℕ → ℕ → DepRegistry → ValueStore → Option (List ℕ)
cols_of [] id deps vs = slots_of (deps_of id deps) vs
cols_of (di ∷ dis) id deps vs = some (di ∷ dis)

abbrev pub rule_of_node : Option Node → ComputeRule
rule_of_node none = identity
rule_of_node (some n) = Option.get_or (rule_of n.kind) identity

-- One round of the loop over the order.
unfoldable pub push_row : Graph → DepRegistry → ValueStore → ℕ → Csr → Option Csr
unfolding push_col slots_of dense_index node ordered_dep_indices_of
push_row graph deps vs id c = do
  out_dense ← dense_index id vs
  cols ← cols_of (ordered_dep_indices_of id deps) id deps vs
  let c' = push_cols cols (record c {
    outputs = c.outputs ++ out_dense ∷ [];
    rules = c.rules ++ rule_of_node (node id graph) ∷ [];
  })
  some (record c' { dep_offsets = c'.dep_offsets ++ u32 (length c'.dep_cols) ∷ [] })

unfoldable pub push_rows : Graph → DepRegistry → ValueStore → List ℕ → Csr → Option Csr
unfolding push_row
push_rows graph deps vs [] c = some c
push_rows graph deps vs (id ∷ topo) c = do
  c' ← push_row graph deps vs id c
  push_rows graph deps vs topo c'

abbrev pub region_of : List ℕ → Csr → ℕ → CompiledRegion
region_of topo c epoch =
    let inv = build_region_inv c.dep_offsets c.dep_cols (length topo) in
    record {
      members = topo;
      rules = c.rules;
      outputs = c.outputs;
      inputs = c.inputs;
      dep_offsets = c.dep_offsets;
      dep_cols = c.dep_cols;
      compiled_at = epoch;
      col_inv_keys = inv.col_inv_keys;
      col_inv_offsets = inv.col_inv_offsets;
      col_inv_rows = inv.col_inv_rows;
      contig_start = inv.contig_start;
    }

unfoldable pub compile_region :
    List ℕ → Graph → DepRegistry → ValueStore → ℕ → Option CompiledRegion
unfolding topo_sort push_rows build_region_inv
compile_region members graph deps vs epoch = do
  topo ← topo_sort members deps
  c ← push_rows graph deps vs topo empty_csr
  some (region_of topo c epoch)
