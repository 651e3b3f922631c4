-- ===== src/Egraph/Build/Denote.antt =====
-- What the expressions of `build_node_expr` (core-rs/src/egraph.rs) denote.
use pgress.Prelude.{
  ℕ, zero, suc, ◌≡◌, ◌≢◌, refl, sym, ap, ap₂, subst, ◌∙◌, inl, inr, arith, true, false, List, [],
  ◌∷◌, Option, none, some, some-inj, map, length, eqb, Bool-cases, Option-cases, get, insert,
  get-insert, ==→eq, nat_eq,
}
use pgress.Prelude.Sorting.{sort, member, member-sort}
use pgress.Ternary.{T, neg, pos}
use pgress.Node.{Node, NodeKind, input, computed, ComputeRule, meet_all_of, eval}
use pgress.Graph.{Graph, node}
use pgress.Deps.{DepRegistry, ordered_deps_of}
use pgress.Egraph.{Term, PgrsLang, Symbol, mu, lit, BoundaryPin, symbol_name, SectionRegion}
use pgress.Egraph.Rules.{denote}
use pgress.Egraph.Build.{
  Memo, rule_to_node, keep, literal_of, external, build_deps, build_kind, build_node_expr,
  build_each, build_region_exprs, then_deps, keep_rule, cons_expr,
}
use pgress.Egraph.Build.Reduce.{rule_to_node-denote}

-- A valuation of the nodes that solves the equations of a section: a pinned node has the value of its
-- symbol, the symbol of a cycle has the value of its node, an input among the members has its own
-- value, a computed member has what its rule gives on its dependencies, and a node outside has its
-- value in the graph, neg if it is not there.
pub record IsSolution (region : SectionRegion) (graph : Graph) (deps : DepRegistry)
    (env : Symbol → T) (val : ℕ → T) : Type 0 where
  pub pinned :
      (d : ℕ) (pin : BoundaryPin) → get d region.boundary ≡ some pin → env (symbol_name pin) ≡ val d
  pub looped : (id : ℕ) → member id region.members ≡ true → env (mu id) ≡ val id
  pub inputs :
      (id : ℕ) (n : Node)
      → member id region.members ≡ true
      → node id graph ≡ some n
      → n.kind ≡ input
      → n.value ≡ val id
  pub rules_hold :
      (id : ℕ) (n : Node) (rule : ComputeRule)
      → member id region.members ≡ true
      → node id graph ≡ some n
      → n.kind ≡ computed rule
      → eval rule (map val (ordered_deps_of id deps)) ≡ some (val id)
  pub outside :
      (d : ℕ)
      → member d region.members ≡ false
      → get d region.boundary ≡ none
      → denote env (literal_of (node d graph)) ≡ val d
  pub absent : (id : ℕ) → member id region.members ≡ true → node id graph ≡ none → neg ≡ val id

-- Every MeetAll among the members has a dependency. Of nothing, `rule_to_node` makes the literal neg,
-- while `eval` gives pos.
abbrev pub MeetsRead : SectionRegion → Graph → DepRegistry → Type 0
MeetsRead region graph deps =
    (id : ℕ) (n : Node)
    → member id region.members ≡ true
    → node id graph ≡ some n
    → n.kind ≡ computed meet_all_of
    → ordered_deps_of id deps ≢ []

denote-lit : {S : Type 0} (env : S → T) (t : T) → denote env (lit t) ≡ t
unfolding denote lit
denote-lit env neg = refl
denote-lit env pos = refl
denote-lit env T.zero = refl

map-nil : {A B : Type 0} (f : A → B) (xs : List A) → map f xs ≡ [] → xs ≡ []
map-nil f [] h = refl
map-nil f (x ∷ xs) h = cc

module _ (region : SectionRegion) (graph : Graph) (deps : DepRegistry) (env : Symbol → T)
    (val : ℕ → T) (solution : IsSolution region graph deps env val)
    (meets_read : MeetsRead region graph deps) where
  -- The memo holds expressions that denote the value of their node.
  abbrev Faithful : Memo → Type 0
  Faithful memo = (id : ℕ) (e : PgrsLang) → get id memo ≡ some e → denote env e ≡ val id

  abbrev Good : ℕ → Option (PgrsLang × Memo) → Type 0
  Good id none = Unit
  Good id (some (e, memo)) = (denote env e ≡ val id) × Faithful memo

  abbrev GoodAll : List ℕ → Option (List PgrsLang × Memo) → Type 0
  GoodAll ds none = Unit
  GoodAll ds (some (es, memo)) = (map (denote env) es ≡ map val ds) × Faithful memo

  Faithful-insert :
      (id : ℕ) (e : PgrsLang) (memo : Memo)
      → denote env e ≡ val id
      → Faithful memo
      → Faithful (insert id e memo)
  Faithful-insert id e memo h f j e' g = elim (Bool-cases (eqb id j)) [
    | inl hit ↦
        let at : e ≡ e' = some-inj (sym (get-insert j id e memo ∙ rw hit refl) ∙ g) in
        subst (λ (k : ℕ). denote env e' ≡ val k) (==→eq id j hit) (ap (denote env) (sym at) ∙ h)
    | inr miss ↦ f j e' (sym (get-insert j id e memo ∙ rw miss refl) ∙ g)
  ]

  keep-Good :
      (id : ℕ) (e : PgrsLang) (memo : Memo)
      → denote env e ≡ val id
      → Faithful memo
      → Good id (keep id e memo)
  keep-Good id e memo h f = (h, Faithful-insert id e memo h f)

  external-val :
      (d : ℕ) → member d region.members ≡ false → denote env (external region graph deps d) ≡ val d
  external-val d out = elim (Option-cases (get d region.boundary)) [
    | inl free ↦ rw free (solution.outside d out free)
    | inr (pin, e) ↦ rw e (unfold denote in solution.pinned d pin e)
  ]

  cons_expr-GoodAll :
      (d : ℕ) (ds : List ℕ) (e : PgrsLang) (o : Option (List PgrsLang × Memo))
      → denote env e ≡ val d
      → GoodAll ds o
      → GoodAll (d ∷ ds) (cons_expr region graph deps e o)
  cons_expr-GoodAll d ds e none h good = tt
  cons_expr-GoodAll d ds e (some (es, memo)) h (same_vals, f) = (ap₂ ◌∷◌ h same_vals, f)

  then_deps-GoodAll :
      (d : ℕ) (ds : List ℕ) (next : Memo → Option (List PgrsLang × Memo))
      (o : Option (PgrsLang × Memo))
      → Good d o
      → ((memo : Memo) → Faithful memo → GoodAll ds (next memo))
      → GoodAll (d ∷ ds) (then_deps region graph deps next o)
  then_deps-GoodAll d ds next none good rest = tt
  then_deps-GoodAll d ds next (some (e, memo)) (h, f) rest =
      cons_expr-GoodAll d ds e (next memo) h (rest memo f)

  build_deps-GoodAll :
      (next : ℕ → Memo → Option (PgrsLang × Memo)) (ds : List ℕ) (memo : Memo)
      → ((d : ℕ) (m : Memo) → member d region.members ≡ true → Faithful m → Good d (next d m))
      → Faithful memo
      → GoodAll ds (build_deps region graph deps next ds memo)
  unfolding build_deps
  build_deps-GoodAll next [] memo good f = (refl, f)
  build_deps-GoodAll next (d ∷ ds) memo good f =
      let rest = λ (m : Memo) (g : Faithful m). build_deps-GoodAll next ds m good g in
      elim (Bool-cases (member d region.members)) [
        | inl inside ↦ rw inside (
            then_deps-GoodAll d ds (build_deps region graph deps next ds) (next d memo)
              (good d memo inside f) rest)
        | inr out ↦ rw out (
            then_deps-GoodAll d ds (build_deps region graph deps next ds)
              (some (external region graph deps d, memo)) (external-val d out, f) rest)
      ]

  keep_rule-Good :
      (id : ℕ) (rule : ComputeRule) (o : Option (List PgrsLang × Memo))
      → eval rule (map val (ordered_deps_of id deps)) ≡ some (val id)
      → (rule ≡ meet_all_of → ordered_deps_of id deps ≢ [])
      → GoodAll (ordered_deps_of id deps) o
      → Good id (keep_rule region graph deps id rule o)
  keep_rule-Good id rule none h some_dep good = tt
  keep_rule-Good id rule (some (es, memo)) h some_dep (same_vals, f) =
      keep-Good id (rule_to_node rule es) memo
        (rule_to_node-denote env rule es (val id)
          (λ is_meet no_exprs. some_dep is_meet (
            map-nil val (ordered_deps_of id deps) (sym same_vals ∙ ap (map (denote env)) no_exprs)))
          (ap (eval rule) same_vals ∙ h))
        f

  build_kind-Good :
      (next : ℕ → Memo → Option (PgrsLang × Memo)) (id : ℕ) (n : Node) (kind : NodeKind)
      (memo : Memo)
      → member id region.members ≡ true
      → node id graph ≡ some n
      → n.kind ≡ kind
      → ((d : ℕ) (m : Memo) → member d region.members ≡ true → Faithful m → Good d (next d m))
      → Faithful memo
      → Good id (build_kind region graph deps next id n.value kind memo)
  build_kind-Good next id n input memo m e k good f =
      keep-Good id (lit n.value) memo (denote-lit env n.value ∙ solution.inputs id n m e k) f
  build_kind-Good next id n (computed rule) memo m e k good f =
      keep_rule-Good id rule (build_deps region graph deps next (ordered_deps_of id deps) memo)
        (solution.rules_hold id n rule m e k)
        (λ is_meet. meets_read id n m e (k ∙ ap computed is_meet))
        (build_deps-GoodAll next (ordered_deps_of id deps) memo good f)

  build_node_expr-Good :
      (fuel : ℕ) (on_stack : List ℕ) (id : ℕ) (memo : Memo)
      → member id region.members ≡ true
      → Faithful memo
      → Good id (build_node_expr region graph deps fuel on_stack id memo)
  unfolding build_node_expr
  build_node_expr-Good zero on_stack id memo m f = tt
  build_node_expr-Good (suc fuel) on_stack id memo m f = elim (Option-cases (get id memo)) [
    | inr (cached, e) ↦ rw e (f id cached e, f)
    | inl fresh ↦ rw fresh (elim (Bool-cases (member id on_stack)) [
      | inl loops ↦
          rw loops
            (keep-Good id (Term.symbol (mu id)) memo (unfold denote in solution.looped id m) f)
      | inr open_node ↦ rw open_node (elim (Option-cases (get id region.boundary)) [
        | inr (pin, e) ↦ rw e (
            keep-Good id (Term.symbol (symbol_name pin)) memo
              (unfold denote in solution.pinned id pin e) f)
        | inl free ↦ rw free (elim (Option-cases (node id graph)) [
          | inl gone ↦
              rw gone
                (keep-Good id Term.lit_neg memo (unfold denote in solution.absent id m gone) f)
          | inr (n, e) ↦ rw e (
              build_kind-Good (build_node_expr region graph deps fuel (id ∷ on_stack)) id n n.kind
                memo m e refl
                (λ d m' inside g. build_node_expr-Good fuel (id ∷ on_stack) d m' inside g) f)
        ])
      ])
    ])
  ]

  abbrev FaithfulIf : Option Memo → Type 0
  FaithfulIf none = Unit
  FaithfulIf (some memo) = Faithful memo

  build_each-FaithfulIf :
      (fuel : ℕ) (ids : List ℕ) (memo : Memo)
      → ((id : ℕ) → member id ids ≡ true → member id region.members ≡ true)
      → Faithful memo
      → FaithfulIf (build_each region graph deps fuel ids memo)
  unfolding build_each member
  build_each-FaithfulIf fuel [] memo inside f = f
  build_each-FaithfulIf fuel (id ∷ ids) memo inside f =
      let good = build_node_expr-Good fuel [] id memo (inside id (ground arith)) f in
      elim (Option-cases (build_node_expr region graph deps fuel [] id memo)) [
        | inl stuck ↦ rw stuck tt
        | inr ((e, memo'), g) ↦
            let kept : (denote env e ≡ val id) × Faithful memo' = subst (Good id) g good in
            rw g (build_each-FaithfulIf fuel ids memo' (λ j m. inside j (ground (arith, m))) kept.1)
      ]

-- In the map of expressions that is built for a section whose MeetAll members have a dependency each,
-- every expression denotes the value that its node has in any solution of the section's equations.
pub build_region_exprs-denote :
    (region : SectionRegion) (graph : Graph) (deps : DepRegistry) (env : Symbol → T) (val : ℕ → T)
    (memo : Memo) (id : ℕ) (e : PgrsLang)
    → IsSolution region graph deps env val
    → MeetsRead region graph deps
    → build_region_exprs region graph deps ≡ some memo
    → get id memo ≡ some e
    → denote env e ≡ val id
unfolding build_region_exprs
build_region_exprs-denote region graph deps env val memo id e solution meets_read built found =
    let good =
      build_each-FaithfulIf region graph deps env val solution meets_read
        (suc (length region.members)) (sort region.members) []
        (λ j m. sym (member-sort j region.members) ∙ m) (λ j e' g. unfold get in cc) in
    let faithful : Faithful region graph deps env val solution meets_read memo =
      subst (FaithfulIf region graph deps env val solution meets_read) built good in
    faithful id e found
