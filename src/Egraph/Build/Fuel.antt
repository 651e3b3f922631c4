-- ===== src/Egraph/Build/Fuel.antt =====
-- The recursion of `build_node_expr` (core-rs/src/egraph.rs) ends within its fuel.
use pgress.Prelude.{
  ℕ, zero, suc, ◌+◌, ◌≤◌, ◌<◌, ◌≡◌, refl, sym, ◌∙◌, inl, inr, arith, true, false, List, [], ◌∷◌,
  Option, none, some, length, eqb, if◌then◌else◌, Bool-cases, Option-cases, get, ==→eq, nat_eq,
}
use pgress.Prelude.Sorting.{sort, member, member-sort}
use pgress.Ternary.{T}
use pgress.Node.{Node, NodeKind, input, computed}
use pgress.Graph.{Graph, node}
use pgress.Deps.{DepRegistry, ordered_deps_of}
use pgress.Egraph.{PgrsLang, BoundaryPin, SectionRegion}
use pgress.Egraph.Build.{
  Memo, build_deps, build_kind, build_found, build_node_expr, build_each, build_region_exprs,
}

-- The members that are not on the stack.
abbrev off_stack : List ℕ → List ℕ → ℕ
off_stack on_stack [] = 0
off_stack on_stack (id ∷ ids) = (if member id on_stack then 0 else 1) + off_stack on_stack ids

off_stack-nil : (ids : List ℕ) → off_stack [] ids ≡ length ids
unfolding member
off_stack-nil [] = refl
off_stack-nil (id ∷ ids) = omega (arith, off_stack-nil ids)

off_stack-push_le :
    (id : ℕ) (on_stack ids : List ℕ) → off_stack (id ∷ on_stack) ids ≤ off_stack on_stack ids
unfolding member
off_stack-push_le id on_stack [] = omega arith
off_stack-push_le id on_stack (j ∷ ids) = ground (arith, off_stack-push_le id on_stack ids)

off_stack-push :
    (id : ℕ) (on_stack ids : List ℕ)
    → member id ids ≡ true
    → member id on_stack ≡ false
    → off_stack (id ∷ on_stack) ids < off_stack on_stack ids
unfolding member
off_stack-push id on_stack [] m h = cc
off_stack-push id on_stack (j ∷ ids) m h = elim (Bool-cases (eqb j id)) [
  | inl hit ↦
      let at : j ≡ id = ==→eq j id hit in
      let self : eqb id id ≡ true = ground arith in
      rw (at, self, h) (omega (arith, off_stack-push_le id on_stack ids))
  | inr miss ↦ ground (arith, m, miss, off_stack-push id on_stack ids)
]

-- A call has a result.
abbrev Ends {ℓ} : {A : Type ℓ} → Option A → Type ℓ
Ends {A = A} o = (a : A) × (o ≡ some a)

module _ (region : SectionRegion) (graph : Graph) (deps : DepRegistry) where
  build_deps-Ends :
      (next : ℕ → Memo → Option (PgrsLang × Memo)) (ds : List ℕ) (memo : Memo)
      → ((d : ℕ) (m : Memo) → member d region.members ≡ true → Ends (next d m))
      → Ends (build_deps region graph deps next ds memo)
  unfolding build_deps
  build_deps-Ends next [] memo ends = (_, refl)
  build_deps-Ends next (d ∷ ds) memo ends = elim (Bool-cases (member d region.members)) [
    | inl inside ↦
        let ((e, memo'), f) = ends d memo inside in
        let ((es, memo''), g) = build_deps-Ends next ds memo' ends in rw (inside, f, g) (_, refl)
    | inr outside ↦
        let ((es, memo''), g) = build_deps-Ends next ds memo ends in rw (outside, g) (_, refl)
  ]

  build_kind-Ends :
      (next : ℕ → Memo → Option (PgrsLang × Memo)) (id : ℕ) (value : T) (kind : NodeKind)
      (memo : Memo)
      → ((d : ℕ) (m : Memo) → member d region.members ≡ true → Ends (next d m))
      → Ends (build_kind region graph deps next id value kind memo)
  build_kind-Ends next id value input memo ends = (_, refl)
  build_kind-Ends next id value (computed rule) memo ends =
      let ((es, memo'), f) = build_deps-Ends next (ordered_deps_of id deps) memo ends in
      rw f (_, refl)

  build_found-Ends :
      (next : ℕ → Memo → Option (PgrsLang × Memo)) (id : ℕ) (pin : Option BoundaryPin)
      (n : Option Node) (memo : Memo)
      → ((d : ℕ) (m : Memo) → member d region.members ≡ true → Ends (next d m))
      → Ends (build_found region graph deps next id pin n memo)
  build_found-Ends next id (some pin) n memo ends = (_, refl)
  build_found-Ends next id none none memo ends = (_, refl)
  build_found-Ends next id none (some n) memo ends =
      build_kind-Ends next id n.value n.kind memo ends

  build_node_expr-Ends :
      (fuel : ℕ) (on_stack : List ℕ) (id : ℕ) (memo : Memo)
      → member id region.members ≡ true
      → off_stack on_stack region.members < fuel
      → Ends (build_node_expr region graph deps fuel on_stack id memo)
  unfolding build_node_expr
  build_node_expr-Ends zero on_stack id memo m h = absurd (omega arith)
  build_node_expr-Ends (suc fuel) on_stack id memo m h = elim (Option-cases (get id memo)) [
    | inr (cached, e) ↦ rw e (_, refl)
    | inl fresh ↦ rw fresh (elim (Bool-cases (member id on_stack)) [
      | inl loops ↦ rw loops (_, refl)
      | inr open_node ↦ rw open_node (
          build_found-Ends (build_node_expr region graph deps fuel (id ∷ on_stack)) id
            (get id region.boundary) (node id graph) memo
            (λ d m' inside.
              build_node_expr-Ends fuel (id ∷ on_stack) d m' inside
                (omega (arith, h, off_stack-push id on_stack region.members m open_node))))
    ])
  ]

  build_each-Ends :
      (ids : List ℕ) (memo : Memo)
      → ((id : ℕ) → member id ids ≡ true → member id region.members ≡ true)
      → Ends (build_each region graph deps (suc (length region.members)) ids memo)
  unfolding build_each member
  build_each-Ends [] memo inside = (_, refl)
  build_each-Ends (id ∷ ids) memo inside =
      let ((e, memo'), f) =
        build_node_expr-Ends (suc (length region.members)) [] id memo (inside id (ground arith))
          (omega (arith, off_stack-nil region.members)) in
      rw f (build_each-Ends ids memo' (λ j m. inside j (ground (arith, m))))

  -- The builder always ends within its fuel: for every section, graph and registry there is a map of
  -- expressions.
  pub build_region_exprs_ends : (memo : Memo) × (build_region_exprs region graph deps ≡ some memo)
  unfolding build_region_exprs
  build_region_exprs_ends =
      build_each-Ends (sort region.members) [] (λ id m. sym (member-sort id region.members) ∙ m)
