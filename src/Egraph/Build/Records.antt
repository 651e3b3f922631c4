-- ===== src/Egraph/Build/Records.antt =====
-- The memo of `build_region_exprs` (core-rs/src/egraph.rs) has an expression for every member.
use pgress.Prelude.{
  is_some, ℕ, zero, suc, ◌≡◌, ◌⊎◌, refl, subst, ◌∙◌, inl, inr, arith, true, List, [], ◌∷◌, Option,
  none, some, length, eqb, Bool-cases, Option-cases, get, insert, get-insert, ==→eq, nat_eq,
}
use pgress.Prelude.Sorting.{sort, member, member-sort}
use pgress.Ternary.{T}
use pgress.Node.{Node, NodeKind, input, computed}
use pgress.Graph.{Graph, node}
use pgress.Deps.{DepRegistry, ordered_deps_of}
use pgress.Egraph.{PgrsLang, BoundaryPin, SectionRegion}
use pgress.Egraph.Build.{
  Memo, keep, external, build_deps, build_kind, build_found, build_node_expr, build_each,
  build_region_exprs, then_deps, cons_expr,
}

abbrev Has : Memo → ℕ → Type 0
Has memo id = is_some (get id memo) ≡ true

abbrev Extends : Memo → Memo → Type 0
Extends memo memo' = (j : ℕ) → Has memo j → Has memo' j

abbrev Grew {ℓ} : {A : Type ℓ} → Memo → Option (A × Memo) → Type 0
Grew memo none = Unit
Grew memo (some (a, memo')) = Extends memo memo'

insert-Has :
    (id j : ℕ) (e : PgrsLang) (memo : Memo)
    → (eqb id j ≡ true) ⊎ Has memo j
    → Has (insert id e memo) j
insert-Has id j e memo h = rw (get-insert j id e memo) (elim (Bool-cases (eqb id j)) [
  | inl hit ↦ rw hit refl
  | inr miss ↦ rw miss (elim h [ inl hit ↦ absurd (ground (arith, hit, miss)) | inr was ↦ was ])
])

-- A call extends the memo, and records its own id.
abbrev Records : ℕ → Memo → Option (PgrsLang × Memo) → Type 0
Records id memo none = Unit
Records id memo (some (e, memo')) = Extends memo memo' × Has memo' id

module _ (region : SectionRegion) (graph : Graph) (deps : DepRegistry) where
  keep-Records :
      (id : ℕ) (e : PgrsLang) (memo memo' : Memo)
      → Extends memo memo'
      → Records id memo (keep id e memo')
  keep-Records id e memo memo' grows = (
    (λ j h. insert-Has id j e memo' (inr (grows j h))),
    insert-Has id id e memo' (inl (ground arith)),
  )

  cons_expr-Grew :
      (e : PgrsLang) (memo memo' : Memo) (o : Option (List PgrsLang × Memo))
      → Extends memo memo'
      → Grew memo' o
      → Grew memo (cons_expr region graph deps e o)
  cons_expr-Grew e memo memo' none first rest = tt
  cons_expr-Grew e memo memo' (some (es, memo'')) first rest = λ j h. rest j (first j h)

  then_deps-Grew :
      (memo : Memo) (next : Memo → Option (List PgrsLang × Memo)) (o : Option (PgrsLang × Memo))
      → Grew memo o
      → ((m : Memo) → Grew m (next m))
      → Grew memo (then_deps region graph deps next o)
  then_deps-Grew memo next none first rest = tt
  then_deps-Grew memo next (some (e, memo')) first rest =
      cons_expr-Grew e memo memo' (next memo') first (rest memo')

  Records-Grew :
      (id : ℕ) (memo : Memo) (o : Option (PgrsLang × Memo)) → Records id memo o → Grew memo o
  Records-Grew id memo none r = tt
  Records-Grew id memo (some (e, memo')) r = r.0

  build_deps-Grew :
      (next : ℕ → Memo → Option (PgrsLang × Memo)) (ds : List ℕ) (memo : Memo)
      → ((d : ℕ) (m : Memo) → Records d m (next d m))
      → Grew memo (build_deps region graph deps next ds memo)
  unfolding build_deps
  build_deps-Grew next [] memo records = λ j h. h
  build_deps-Grew next (d ∷ ds) memo records =
      let rest = λ (m : Memo). build_deps-Grew next ds m records in
      elim (Bool-cases (member d region.members)) [
        | inl inside ↦ rw inside (
            then_deps-Grew memo (build_deps region graph deps next ds) (next d memo)
              (Records-Grew d memo (next d memo) (records d memo)) rest)
        | inr out ↦ rw out (
            then_deps-Grew memo (build_deps region graph deps next ds)
              (some (external region graph deps d, memo)) (λ j h. h) rest)
      ]

  build_kind-Records :
      (next : ℕ → Memo → Option (PgrsLang × Memo)) (id : ℕ) (value : T) (kind : NodeKind)
      (memo : Memo)
      → ((d : ℕ) (m : Memo) → Records d m (next d m))
      → Records id memo (build_kind region graph deps next id value kind memo)
  build_kind-Records next id value input memo records = keep-Records id _ memo memo (λ j h. h)
  build_kind-Records next id value (computed rule) memo records =
      let grew = build_deps-Grew next (ordered_deps_of id deps) memo records in
      elim (Option-cases (build_deps region graph deps next (ordered_deps_of id deps) memo)) [
        | inl stuck ↦ rw stuck tt
        | inr ((es, memo'), e) ↦
            let grows : Extends memo memo' = subst (Grew memo) e grew in
            rw e (keep-Records id _ memo memo' grows)
      ]

  build_found-Records :
      (next : ℕ → Memo → Option (PgrsLang × Memo)) (id : ℕ) (pin : Option BoundaryPin)
      (n : Option Node) (memo : Memo)
      → ((d : ℕ) (m : Memo) → Records d m (next d m))
      → Records id memo (build_found region graph deps next id pin n memo)
  build_found-Records next id (some pin) n memo records = keep-Records id _ memo memo (λ j h. h)
  build_found-Records next id none none memo records = keep-Records id _ memo memo (λ j h. h)
  build_found-Records next id none (some n) memo records =
      build_kind-Records next id n.value n.kind memo records

  build_node_expr-Records :
      (fuel : ℕ) (on_stack : List ℕ) (id : ℕ) (memo : Memo)
      → Records id memo (build_node_expr region graph deps fuel on_stack id memo)
  unfolding build_node_expr
  build_node_expr-Records zero on_stack id memo = tt
  build_node_expr-Records (suc fuel) on_stack id memo = elim (Option-cases (get id memo)) [
    | inr (cached, e) ↦ rw e ((λ j h. h), rw e refl)
    | inl fresh ↦ rw fresh (elim (Bool-cases (member id on_stack)) [
      | inl loops ↦ rw loops (keep-Records id _ memo memo (λ j h. h))
      | inr open_node ↦ rw open_node (
          build_found-Records (build_node_expr region graph deps fuel (id ∷ on_stack)) id
            (get id region.boundary) (node id graph) memo
            (λ d m. build_node_expr-Records fuel (id ∷ on_stack) d m))
    ])
  ]

  abbrev AllHave : List ℕ → Memo → Option Memo → Type 0
  AllHave ids memo none = Unit
  AllHave ids memo (some memo') =
      Extends memo memo' × ((id : ℕ) → member id ids ≡ true → Has memo' id)

  build_each-AllHave :
      (fuel : ℕ) (ids : List ℕ) (memo : Memo)
      → AllHave ids memo (build_each region graph deps fuel ids memo)
  unfolding build_each member
  build_each-AllHave fuel [] memo = ((λ j h. h), λ id m. cc)
  build_each-AllHave fuel (id ∷ ids) memo =
      let records = build_node_expr-Records fuel [] id memo in
      elim (Option-cases (build_node_expr region graph deps fuel [] id memo)) [
        | inl stuck ↦ rw stuck tt
        | inr ((e, memo1), f) ↦
            let here : Extends memo memo1 × Has memo1 id = subst (Records id memo) f records in
            let there = build_each-AllHave fuel ids memo1 in
            rw f (elim (Option-cases (build_each region graph deps fuel ids memo1)) [
              | inl stuck ↦ rw stuck tt
              | inr (memo2, g) ↦
                  let rest : Extends memo1 memo2 × ((j : ℕ) → member j ids ≡ true → Has memo2 j) =
                    subst (AllHave ids memo1) g there in
                  rw g (
                    (λ j h. rest.0 j (here.0 j h)),
                    λ j m. elim (Bool-cases (eqb id j)) [
                      | inl hit ↦ subst (Has memo2) (==→eq id j hit) (rest.0 id here.1)
                      | inr miss ↦ rest.1 j (ground (arith, m, miss))
                    ],
                  )
            ])
      ]

  pub build_region_exprs_record :
      (memo : Memo) (id : ℕ)
      → build_region_exprs region graph deps ≡ some memo
      → member id region.members ≡ true
      → is_some (get id memo) ≡ true
  unfolding build_region_exprs
  build_region_exprs_record memo id built m =
      let all = build_each-AllHave (suc (length region.members)) (sort region.members) [] in
      let have : AllHave (sort region.members) [] (some memo) =
        subst (AllHave (sort region.members) []) built all in
      have.1 id (member-sort id region.members ∙ m)
