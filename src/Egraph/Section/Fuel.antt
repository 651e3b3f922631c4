-- ===== src/Egraph/Section/Fuel.antt =====
-- The walk of `build_section_region` (core-rs/src/egraph.rs) ends within its fuel.
use pgress.Prelude.{
  ℕ, zero, suc, ◌+◌, ◌≤◌, ◌≡◌, refl, ap, subst, ◌∙◌, inl, inr, arith, Bool, true, false, not, ◌&&◌,
  List, [], ◌∷◌, Option, none, some, length, length-append, length-map, leb, eqb, ==→eq,
  if◌then◌else◌, Bool-cases, Option-cases, Map, get, nat_eq,
}
use mathlib.Core.Option
use pgress.Prelude.Sorting.{sort, insert_sorted, member, add, member-add}
use pgress.Ternary.{T, same}
use pgress.Node.{Node}
use pgress.Graph.{Graph, node}
use pgress.Deps.{DepRegistry, deps_of}
use pgress.Egraph.{BoundaryPin, SectionRegion}
use pgress.Egraph.Section.{
  Walk, is_classified, queued, classify, visit, walk, dep_total, seeded, build_section_region,
}

length-insert_sorted : (x : ℕ) (xs : List ℕ) → length (insert_sorted x xs) ≡ suc (length xs)
unfolding insert_sorted
length-insert_sorted x [] = refl
length-insert_sorted x (y ∷ ys) = ground (arith, length-insert_sorted x ys)

length-sort : (xs : List ℕ) → length (sort xs) ≡ length xs
unfolding sort
length-sort [] = refl
length-sort (x ∷ xs) = length-insert_sorted x (sort xs) ∙ ap suc (length-sort xs)

length-queued :
    (members : List ℕ) (boundary : Map ℕ BoundaryPin) (ds : List ℕ)
    → length (queued members boundary ds) ≤ length ds
length-queued members boundary [] = omega arith
length-queued members boundary (d ∷ ds) = elim (Bool-cases (is_classified d members boundary)) [
  | inl old ↦ rw old (omega (arith, length-queued members boundary ds))
  | inr new ↦ rw new (omega (arith, length-queued members boundary ds))
]

-- The dependencies that nodes other than those in `seen` have on record.
abbrev unexpanded : List ℕ → Map ℕ (List ℕ) → ℕ
unexpanded seen [] = 0
unexpanded seen ((id, ds) ∷ m) = (if member id seen then 0 else length ds) + unexpanded seen m

unexpanded-nil : (m : Map ℕ (List ℕ)) → unexpanded [] m ≡ dep_total m
unfolding member
unexpanded-nil [] = refl
unexpanded-nil ((id, ds) ∷ m) = omega (arith, unexpanded-nil m)

unexpanded-add_le :
    (id : ℕ) (seen : List ℕ) (m : Map ℕ (List ℕ)) → unexpanded (add id seen) m ≤ unexpanded seen m
unexpanded-add_le id seen [] = omega arith
unexpanded-add_le id seen ((k, ds) ∷ m) =
    rw (member-add k id seen) (ground (arith, unexpanded-add_le id seen m))

-- A node that is expanded pays for its dependencies.
unexpanded-add :
    (id : ℕ) (seen : List ℕ) (m : Map ℕ (List ℕ))
    → member id seen ≡ false
    → unexpanded (add id seen) m + length (Option.get_or (get id m) []) ≤ unexpanded seen m
unfolding get
unexpanded-add id seen [] h = omega arith
unexpanded-add id seen ((k, ds) ∷ m) h = elim (Bool-cases (eqb k id)) [
  | inl hit ↦
      let at : k ≡ id = ==→eq k id hit in
      rw (hit, at, member-add id id seen) (ground (arith, h, unexpanded-add_le id seen m))
  | inr miss ↦ rw (miss, member-add k id seen) (ground (arith, h, unexpanded-add id seen m h))
]

module _ (graph : Graph) (deps : DepRegistry) (max_members : ℕ) where
  -- What is left to do.
  abbrev work : Walk → ℕ
  work w = length w.queue + unexpanded w.members deps.deps

  -- A round leaves no more to do.
  abbrev Within : ℕ → Option Walk → Type 0
  Within bound none = Unit
  Within bound (some w) = work w ≤ bound

  classify-Within :
      (id : ℕ) (is_seed : Bool) (n : Node) (w : Walk)
      → member id w.members ≡ false
      → Within (work w) (classify graph deps max_members id is_seed n w)
  unfolding classify deps_of
  classify-Within id is_seed n w new =
      let members = add id w.members in
      let ds = Option.get_or (get id deps.deps) [] in
      elim (Bool-cases (not is_seed && not (same n.value T.zero))) [
        | inl stable ↦ rw stable (omega arith)
        | inr inside ↦ rw inside (elim (Bool-cases (leb max_members (length w.members))) [
          | inl full ↦ rw full tt
          | inr room ↦ rw room (
              omega (
                arith,
                length-append w.queue (queued members w.boundary (sort ds)),
                length-queued members w.boundary (sort ds),
                length-sort ds,
                unexpanded-add id w.members deps.deps new,
              ))
        ])
      ]

  visit-Within :
      (id : ℕ) (is_seed : Bool) (w : Walk)
      → Within (work w) (visit graph deps max_members id is_seed w)
  unfolding visit
  visit-Within id is_seed w = elim (Bool-cases (is_classified id w.members w.boundary)) [
    | inl old ↦ rw old (omega arith)
    | inr new ↦ rw new (elim (Option-cases (node id graph)) [
      | inl gone ↦ rw gone (omega arith)
      | inr (n, e) ↦ rw e (classify-Within id is_seed n w (ground (arith, new)))
    ])
  ]

  walk_ends :
      (fuel : ℕ) (members : List ℕ) (boundary : Map ℕ BoundaryPin) (queue : List (ℕ × Bool))
      → length queue + unexpanded members deps.deps ≤ fuel
      → (w : Walk) × (walk graph deps max_members fuel members boundary queue ≡ some w)
  unfolding walk
  walk_ends zero members boundary [] h = (_, refl)
  walk_ends (suc fuel) members boundary [] h = (_, refl)
  walk_ends zero members boundary (entry ∷ queue) h = absurd (omega arith)
  walk_ends (suc fuel) members boundary ((id, is_seed) ∷ queue) h =
      let w : Walk = record { members = members; boundary = boundary; queue = queue } in
      let step = visit-Within id is_seed w in
      elim (Option-cases (visit graph deps max_members id is_seed w)) [
        | inl stop ↦ rw stop (w, refl)
        | inr (w', e) ↦
            let less : work w' ≤ work w = subst (Within (work w)) e step in
            rw e (walk_ends fuel w'.members w'.boundary w'.queue (omega (arith, less, h)))
      ]

-- The walk always ends within its fuel: `build_section_region` has a result for every list of seeds,
-- graph, registry and member limit.
pub build_section_region_ends :
    (seeds : List ℕ) (graph : Graph) (deps : DepRegistry) (max_members : ℕ)
    → (region : SectionRegion) × (build_section_region seeds graph deps max_members ≡ some region)
unfolding build_section_region
build_section_region_ends seeds graph deps max_members =
    let fuel = length seeds + dep_total deps.deps in
    let enough : length (seeded seeds) + unexpanded [] deps.deps ≤ fuel =
      omega (
        arith,
        length-map {B = ℕ × Bool} (λ (id : ℕ). (id, true)) seeds,
        unexpanded-nil deps.deps,
      ) in
    let (w, e) = walk_ends graph deps max_members fuel [] [] (seeded seeds) enough in rw e (_, refl)
