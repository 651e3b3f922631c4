-- ===== src/Engine/Ends.antt =====
-- The loops of core-rs/src/engine.rs that run on fuel here end within it.
use mathlib.Core.Option
use pgress.Prelude.{
  ℕ, zero, suc, ◌+◌, ◌≤◌, ◌<◌, ◌≡◌, refl, sym, subst, ◌∙◌, inl, inr, arith, true, false, List, [],
  ◌∷◌, ◌++◌, Option, some, length, length-append, ltb, eqb, if◌then◌else◌, Bool-cases, Map, get,
  ==→eq, nat_eq,
}
use pgress.Prelude.Sorting.{sort, member, member-sort, add, member-add}
use pgress.Deps.{DepRegistry, deps_of}
use pgress.Egraph.Section.{dep_total}
use pgress.Egraph.Section.Fuel.{build_section_region_ends}
use pgress.Egraph.Build.Fuel.{build_region_exprs_ends}
use pgress.Egraph.Stabilize.{Saturation, has_members, stabilize_section}
use pgress.Ternary.{T}
use pgress.Egraph.{SectionRegion, PortHistory, PortCompliance}
use pgress.Graph.{Graph}
use pgress.Engine.{Engine}
use pgress.Engine.Settle.{run_stabilize}
use pgress.Engine.Compile.{visit_deps, closure, bfs_dep_closure}

stabilize_section_ends :
    (saturate : Saturation) (region : SectionRegion) (graph : Graph) (deps : DepRegistry)
    (histories : Map ℕ PortHistory)
    → (out : Option T × PortCompliance) × (stabilize_section saturate region graph deps histories
        ≡ some out)
unfolding stabilize_section
stabilize_section_ends saturate region graph deps histories =
    let (memo, e) = build_region_exprs_ends region graph deps in
    elim (Bool-cases (has_members region.members)) [
      | inl some_members ↦ rw (some_members, e) (_, refl)
      | inr no_members ↦ rw no_members (_, refl)
    ]

-- Stabilization always has a result: whatever saturation does, `run_stabilize` returns an engine for
-- every list of seeds.
pub run_stabilize_ends :
    (saturate : Saturation) (seeds : List ℕ) (e : Engine)
    → (e' : Engine) × (run_stabilize saturate seeds e ≡ some e')
unfolding run_stabilize
run_stabilize_ends saturate [] e = (e, refl)
run_stabilize_ends saturate (seed ∷ seeds) e =
    let (region, built) = build_section_region_ends (seed ∷ seeds) e.world.graph e.world.deps 64 in
    let (out, settled) =
      stabilize_section_ends saturate region e.world.graph e.world.deps e.port_histories in
    rw (built, settled) (_, refl)

-- The dependencies on record that have not been visited.
abbrev unvisited : List ℕ → List ℕ → ℕ
unvisited visited [] = 0
unvisited visited (d ∷ ds) = (if member d visited then 0 else 1) + unvisited visited ds

abbrev unvisited_in : List ℕ → Map ℕ (List ℕ) → ℕ
unvisited_in visited [] = 0
unvisited_in visited ((id, ds) ∷ m) = unvisited visited ds + unvisited_in visited m

unvisited-le : (visited ds : List ℕ) → unvisited visited ds ≤ length ds
unvisited-le visited [] = omega arith
unvisited-le visited (d ∷ ds) = ground (arith, unvisited-le visited ds)

unvisited_in-le : (visited : List ℕ) (m : Map ℕ (List ℕ)) → unvisited_in visited m ≤ dep_total m
unvisited_in-le visited [] = omega arith
unvisited_in-le visited ((id, ds) ∷ m) =
    omega (arith, unvisited-le visited ds, unvisited_in-le visited m)

unvisited-add_le :
    (d : ℕ) (visited ds : List ℕ) → unvisited (add d visited) ds ≤ unvisited visited ds
unvisited-add_le d visited [] = omega arith
unvisited-add_le d visited (c ∷ ds) =
    rw (member-add c d visited) (ground (arith, unvisited-add_le d visited ds))

unvisited_in-add_le :
    (d : ℕ) (visited : List ℕ) (m : Map ℕ (List ℕ))
    → unvisited_in (add d visited) m ≤ unvisited_in visited m
unvisited_in-add_le d visited [] = omega arith
unvisited_in-add_le d visited ((id, ds) ∷ m) =
    omega (arith, unvisited-add_le d visited ds, unvisited_in-add_le d visited m)

unvisited-add :
    (d : ℕ) (visited ds : List ℕ)
    → member d visited ≡ false
    → member d ds ≡ true
    → unvisited (add d visited) ds < unvisited visited ds
unfolding member
unvisited-add d visited [] new m = cc
unvisited-add d visited (c ∷ ds) new m = elim (Bool-cases (eqb c d)) [
  | inl hit ↦
      let at : c ≡ d = ==→eq c d hit in
      let self : eqb d d ≡ true = ground arith in
      rw (at, member-add d d visited, self, new) (omega (arith, unvisited-add_le d visited ds))
  | inr miss ↦ rw (member-add c d visited) (ground (arith, m, miss, unvisited-add d visited ds new))
]

unvisited_in-add :
    (id d : ℕ) (visited : List ℕ) (m : Map ℕ (List ℕ))
    → member d visited ≡ false
    → member d (Option.get_or (get id m) []) ≡ true
    → unvisited_in (add d visited) m < unvisited_in visited m
unfolding get
unvisited_in-add id d visited [] new h = absurd (unfold member in ground (arith, h))
unvisited_in-add id d visited ((k, ds) ∷ m) new h = elim (Bool-cases (eqb k id)) [
  | inl hit ↦
      let here : member d ds ≡ true = ground (arith, h, hit) in
      omega (arith, unvisited-add d visited ds new here, unvisited_in-add_le d visited m)
  | inr miss ↦
      let there : member d (Option.get_or (get id m) []) ≡ true = ground (arith, h, miss) in
      omega (arith, unvisited-add_le d visited ds, unvisited_in-add id d visited m new there)
]

visit_deps-old :
    (depth d : ℕ) (ds visited : List ℕ) (queue : List (ℕ × ℕ))
    → member d visited ≡ true
    → visit_deps depth (d ∷ ds) visited queue ≡ visit_deps depth ds visited queue
unfolding visit_deps
visit_deps-old depth d ds visited queue old i =
    if old i
    then visit_deps depth ds visited queue
    else visit_deps depth ds (add d visited) (queue ++ (d, depth) ∷ [])

visit_deps-new :
    (depth d : ℕ) (ds visited : List ℕ) (queue : List (ℕ × ℕ))
    → member d visited ≡ false
    → visit_deps depth (d ∷ ds) visited queue
      ≡ visit_deps depth ds (add d visited) (queue ++ (d, depth) ∷ [])
unfolding visit_deps
visit_deps-new depth d ds visited queue new i =
    if new i
    then visit_deps depth ds visited queue
    else visit_deps depth ds (add d visited) (queue ++ (d, depth) ∷ [])

module _ (deps : DepRegistry) where
  visit_deps_lem :
      (id depth : ℕ) (ds visited : List ℕ) (queue : List (ℕ × ℕ))
      → ((d : ℕ) → member d ds ≡ true → member d (Option.get_or (get id deps.deps) []) ≡ true)
      → let next = visit_deps depth ds visited queue in
        length next.1 + unvisited_in next.0 deps.deps
        ≤ length queue + unvisited_in visited deps.deps
  unfolding member
  visit_deps_lem id depth [] visited queue inside = unfold visit_deps in omega arith
  visit_deps_lem id depth (d ∷ ds) visited queue inside = elim (Bool-cases (member d visited)) [
    | inl old ↦
        subst
          (λ (next : List ℕ × List (ℕ × ℕ)).
            length next.1 + unvisited_in next.0 deps.deps
            ≤ length queue + unvisited_in visited deps.deps)
          (sym (visit_deps-old depth d ds visited queue old))
          (visit_deps_lem id depth ds visited queue (λ c m. inside c (ground (arith, m))))
    | inr new ↦
        subst
          (λ (next : List ℕ × List (ℕ × ℕ)).
            length next.1 + unvisited_in next.0 deps.deps
            ≤ length queue + unvisited_in visited deps.deps)
          (sym (visit_deps-new depth d ds visited queue new))
          (omega (
            arith,
            visit_deps_lem id depth ds (add d visited) (queue ++ (d, depth) ∷ [])
                (λ c m. inside c (ground (arith, m))),
            length-append queue ((d, depth) ∷ []),
            unvisited_in-add id d visited deps.deps new (inside d (ground arith)),
          ))
  ]

  closure_ends :
      (max_depth fuel : ℕ) (visited : List ℕ) (queue : List (ℕ × ℕ)) (result : List ℕ)
      → length queue + unvisited_in visited deps.deps ≤ fuel
      → (out : List ℕ) × (closure deps max_depth fuel visited queue result ≡ some out)
  unfolding closure deps_of
  closure_ends max_depth zero visited [] result h = (result, refl)
  closure_ends max_depth (suc fuel) visited [] result h = (result, refl)
  closure_ends max_depth zero visited (entry ∷ queue) result h = absurd (omega arith)
  closure_ends max_depth (suc fuel) visited ((id, depth) ∷ queue) result h =
      let ds = sort (Option.get_or (get id deps.deps) []) in
      let layer : List ℕ × List (ℕ × ℕ) =
        if ltb depth max_depth then visit_deps (depth + 1) ds visited queue else (visited, queue) in
      let bound : length layer.1 + unvisited_in layer.0 deps.deps ≤ fuel =
        elim (Bool-cases (ltb depth max_depth)) [
          | inl shallow ↦ rw shallow (
              omega (
                arith,
                h,
                visit_deps_lem id (depth + 1) ds visited queue
                    (λ d m. sym (member-sort d (Option.get_or (get id deps.deps) [])) ∙ m),
              ))
          | inr deep ↦ rw deep (omega arith)
        ] in
      closure_ends max_depth fuel layer.0 layer.1 (result ++ id ∷ []) bound

-- The walk of the dependency closure always ends within its fuel.
pub bfs_dep_closure_ends :
    (root max_depth : ℕ) (deps : DepRegistry)
    → (members : List ℕ) × (bfs_dep_closure root max_depth deps ≡ some members)
unfolding bfs_dep_closure
bfs_dep_closure_ends root max_depth deps =
    closure_ends deps max_depth (suc (dep_total deps.deps)) (root ∷ []) ((root, 0) ∷ []) []
      (omega (arith, unvisited_in-le (root ∷ []) deps.deps))
