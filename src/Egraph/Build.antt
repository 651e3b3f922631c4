-- ===== src/Egraph/Build.antt =====
-- The expression builder of core-rs/src/egraph.rs. `memo` is threaded; `on_stack`, which each call
-- restores before it returns, is an argument. The recursion runs on fuel: each nested call is for a
-- member that is not on the stack yet, so one more than the number of members is enough.
pub mod Fuel
pub mod Reduce
pub mod Denote
pub mod Records
use pgress.Prelude.{
  ℕ, zero, suc, ◌+◌, Bool, true, false, List, [], ◌∷◌, ◌++◌, Option, none, some, length, get_or,
  foldl, if◌then◌else◌, Map, get, insert, nat_eq,
}
use pgress.Prelude.Sorting.{sort, member}
use pgress.Ternary.{T}
use pgress.Node.{
  Node, NodeKind, input, computed, ComputeRule, identity, mv_neg_of, mv_add_of, mv_mul_of,
  mv_sub_of, merge_of, meet_all_of, join_any_of, bochvar_fold, power_product,
}
use pgress.Graph.{Graph, node}
use pgress.Deps.{DepRegistry, ordered_deps_of}
use pgress.Egraph.{Term, PgrsLang, Symbol, mu, lit, BoundaryPin, symbol_name, SectionRegion}

-- `dep(i)`.
abbrev pub dep_at : List PgrsLang → ℕ → PgrsLang
dep_at dep_exprs i = get_or dep_exprs i Term.lit_neg

-- `.reduce(f).unwrap_or_else(LitNeg)`.
abbrev pub reduce : (PgrsLang → PgrsLang → PgrsLang) → List PgrsLang → PgrsLang
reduce f [] = Term.lit_neg
reduce f (e ∷ exprs) = foldl f e exprs

unfoldable pub rule_to_node : ComputeRule → List PgrsLang → PgrsLang
rule_to_node identity deps = dep_at deps 0
rule_to_node mv_neg_of deps = Term.mv_neg_of (dep_at deps 0)
rule_to_node mv_add_of deps = Term.mv_add_of (dep_at deps 0) (dep_at deps 1)
rule_to_node mv_mul_of deps = Term.mv_mul_of (dep_at deps 0) (dep_at deps 1)
rule_to_node mv_sub_of deps = Term.mv_sub_of (dep_at deps 0) (dep_at deps 1)
rule_to_node merge_of deps = Term.merge_of (dep_at deps 0) (dep_at deps 1) (dep_at deps 2)
rule_to_node meet_all_of deps = reduce Term.meet_of deps
rule_to_node join_any_of deps = reduce Term.join_of deps
rule_to_node bochvar_fold deps = reduce Term.b_add_of deps
rule_to_node power_product deps = Term.mv_mul_of (dep_at deps 0) (dep_at deps 1)

abbrev pub Memo : Type 0
Memo = Map ℕ PgrsLang

-- A result, recorded under the id.
abbrev pub keep : ℕ → PgrsLang → Memo → Option (PgrsLang × Memo)
keep id e memo = some (e, insert id e memo)

abbrev pub literal_of : Option Node → PgrsLang
literal_of none = Term.lit_neg
literal_of (some n) = lit n.value

abbrev pub pin_or_literal : Option BoundaryPin → Option Node → PgrsLang
pin_or_literal none n = literal_of n
pin_or_literal (some pin) n = Term.symbol (symbol_name pin)

module _ (region : SectionRegion) (graph : Graph) (deps : DepRegistry) where
  -- A dependency that is not a member.
  abbrev pub external : ℕ → PgrsLang
  external dep = pin_or_literal (get dep region.boundary) (node dep graph)

  abbrev pub cons_expr : PgrsLang → Option (List PgrsLang × Memo) → Option (List PgrsLang × Memo)
  cons_expr e none = none
  cons_expr e (some (es, memo)) = some (e ∷ es, memo)

  abbrev pub then_deps :
      (Memo → Option (List PgrsLang × Memo))
      → Option (PgrsLang × Memo)
      → Option (List PgrsLang × Memo)
  then_deps next none = none
  then_deps next (some (e, memo)) = cons_expr e (next memo)

  -- The closure over the ordered dependencies; `next` is the recursive call.
  unfoldable pub build_deps :
      (ℕ → Memo → Option (PgrsLang × Memo)) → List ℕ → Memo → Option (List PgrsLang × Memo)
  unfolding member get node lit
  build_deps next [] memo = some ([], memo)
  build_deps next (dep ∷ ds) memo =
      then_deps (build_deps next ds)
        (if member dep region.members then next dep memo else some (external dep, memo))

  abbrev pub keep_rule : ℕ → ComputeRule → Option (List PgrsLang × Memo) → Option (PgrsLang × Memo)
  keep_rule id rule none = none
  keep_rule id rule (some (es, memo)) = keep id (rule_to_node rule es) memo

  abbrev pub build_kind :
      (ℕ → Memo → Option (PgrsLang × Memo)) → ℕ → T → NodeKind → Memo → Option (PgrsLang × Memo)
  build_kind next id value input memo = keep id (lit value) memo
  build_kind next id value (computed rule) memo =
      keep_rule id rule (build_deps next (ordered_deps_of id deps) memo)

  abbrev pub build_found :
      (ℕ → Memo → Option (PgrsLang × Memo))
      → ℕ
      → Option BoundaryPin
      → Option Node
      → Memo
      → Option (PgrsLang × Memo)
  build_found next id (some pin) n memo = keep id (Term.symbol (symbol_name pin)) memo
  build_found next id none none memo = keep id Term.lit_neg memo
  build_found next id none (some n) memo = build_kind next id n.value n.kind memo

  abbrev pub build_new :
      (ℕ → Memo → Option (PgrsLang × Memo))
      → List ℕ
      → ℕ
      → Memo
      → Option PgrsLang
      → Option (PgrsLang × Memo)
  build_new next on_stack id memo (some cached) = some (cached, memo)
  build_new next on_stack id memo none =
      if member id on_stack
      then keep id (Term.symbol (mu id)) memo
      else build_found next id (get id region.boundary) (node id graph) memo

  -- `none` if the fuel runs out.
  unfoldable pub build_node_expr : ℕ → List ℕ → ℕ → Memo → Option (PgrsLang × Memo)
  unfolding build_deps rule_to_node get insert
  build_node_expr zero on_stack id memo = none
  build_node_expr (suc fuel) on_stack id memo =
      build_new (build_node_expr fuel (id ∷ on_stack)) on_stack id memo (get id memo)

  abbrev pub then_memo : (Memo → Option Memo) → Option (PgrsLang × Memo) → Option Memo
  then_memo next none = none
  then_memo next (some (e, memo)) = next memo

  -- The loop over the sorted members.
  unfoldable pub build_each : ℕ → List ℕ → Memo → Option Memo
  unfolding build_node_expr
  build_each fuel [] memo = some memo
  build_each fuel (id ∷ ids) memo =
      then_memo (build_each fuel ids) (build_node_expr fuel [] id memo)

  unfoldable pub build_region_exprs : Option Memo
  unfolding build_each sort
  build_region_exprs = build_each (suc (length region.members)) (sort region.members) []
