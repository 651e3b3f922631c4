-- ===== src/Egraph/Section/Classified.antt =====
-- What `build_section_region` (core-rs/src/egraph.rs) collects.
use pgress.Prelude.{
  ℕ, zero, suc, ◌+◌, ◌≡◌, ◌⊎◌, refl, sym, ap, subst, ◌∙◌, inl, inr, arith, Bool, true, false, not,
  ◌&&◌, List, [], ◌∷◌, ◌++◌, Option, none, some, some-inj, length, leb, eqb, All, ==→eq,
  if◌then◌else◌, Bool-cases, Option-cases, Map, get, insert, get-insert, nat_eq,
}
use pgress.Prelude.Sorting.{sort, member, member-sort, add}
use pgress.Ternary.{T, same}
use pgress.Node.{Node}
use pgress.Graph.{Graph, node}
use pgress.Deps.{DepRegistry, deps_of}
use pgress.Egraph.{BoundaryPin, SectionRegion}
use pgress.Egraph.Section.{
  Walk, is_some, is_classified, pin_of, queued, classify, visit, walk, pin_known, pin_deps, pin_all,
  close, dep_total, seeded, build_section_region,
}
use pgress.Egraph.Section.Members.{IsSection, is_some-false, pinned-IsSection, added-IsSection}

module _ (graph : Graph) (max_members : ℕ) (seeds : List ℕ) where
  why_inside :
      (is_seed : Bool) (n : Node) (id : ℕ)
      → (is_seed ≡ true → member id seeds ≡ true)
      → (not is_seed && not (same n.value T.zero)) ≡ false
      → (same n.value T.zero ≡ true) ⊎ (member id seeds ≡ true)
  why_inside true n id flag h = inr (flag refl)
  why_inside false n id flag h = inl (ground (arith, h))

  -- The flag of a seed is only on seeds.
  abbrev Flagged : List (ℕ × Bool) → Type 0
  Flagged queue = All (λ e. e.1 ≡ true → member e.0 seeds ≡ true) queue

  Flagged-append : (xs ys : List (ℕ × Bool)) → Flagged xs → Flagged ys → Flagged (xs ++ ys)
  Flagged-append [] ys p q = q
  Flagged-append (x ∷ xs) ys (p, ps) q = (p, Flagged-append xs ys ps q)

  queued-Flagged :
      (members : List ℕ) (boundary : Map ℕ BoundaryPin) (ds : List ℕ)
      → Flagged (queued members boundary ds)
  queued-Flagged members boundary [] = tt
  queued-Flagged members boundary (d ∷ ds) = elim (Bool-cases (is_classified d members boundary)) [
    | inl old ↦ rw old (queued-Flagged members boundary ds)
    | inr new ↦ rw new ((λ up. cc), queued-Flagged members boundary ds)
  ]

  seeded-Flagged :
      (ids : List ℕ)
      → ((id : ℕ) → member id ids ≡ true → member id seeds ≡ true)
      → Flagged (seeded ids)
  unfolding member
  seeded-Flagged [] all = tt
  seeded-Flagged (id ∷ ids) all =
      ((λ up. all id (ground arith)), seeded-Flagged ids (λ j m. all j (ground (arith, m))))

  abbrev IsWalk : Walk → Type 0
  IsWalk w = IsSection graph max_members seeds w.members w.boundary × Flagged w.queue

  abbrev IsWalkOrStop : Option Walk → Type 0
  IsWalkOrStop none = Unit
  IsWalkOrStop (some w) = IsWalk w

  module _ (deps : DepRegistry) where
    visit-IsWalk :
        (id : ℕ) (is_seed : Bool) (w : Walk)
        → (is_seed ≡ true → member id seeds ≡ true)
        → IsWalk w
        → IsWalkOrStop (visit graph deps max_members id is_seed w)
    unfolding visit classify
    visit-IsWalk id is_seed w flag (s, q) =
        elim (Bool-cases (is_classified id w.members w.boundary)) [
          | inl old ↦ rw old (s, q)
          | inr new ↦ rw new (elim (Option-cases (node id graph)) [
            | inl gone ↦ rw gone (s, q)
            | inr (n, e) ↦
                let outside : member id w.members ≡ false = ground (arith, new) in
                let unpinned : get id w.boundary ≡ none =
                  is_some-false (get id w.boundary) (ground (arith, new)) in
                rw e (elim (Bool-cases (not is_seed && not (same n.value T.zero))) [
                  | inl stable ↦ rw stable (
                    pinned-IsSection graph max_members seeds id n w.members w.boundary e outside s,
                    q,
                  )
                  | inr inside ↦ rw inside (elim (Bool-cases (leb max_members (length w.members))) [
                    | inl full ↦ rw full tt
                    | inr room ↦ rw room (
                      added-IsSection graph max_members seeds id n w.members w.boundary e unpinned
                          (ground arith) (why_inside is_seed n id flag inside) s,
                      Flagged-append w.queue _ q
                          (queued-Flagged (add id w.members) w.boundary (sort (deps_of id deps))),
                    )
                  ])
                ])
          ])
        ]

    walk-IsWalk :
        (fuel : ℕ) (members : List ℕ) (boundary : Map ℕ BoundaryPin) (queue : List (ℕ × Bool))
        → IsSection graph max_members seeds members boundary
        → Flagged queue
        → IsWalkOrStop (walk graph deps max_members fuel members boundary queue)
    unfolding walk
    walk-IsWalk zero members boundary [] s q = (s, tt)
    walk-IsWalk (suc fuel) members boundary [] s q = (s, tt)
    walk-IsWalk zero members boundary (entry ∷ queue) s q = tt
    walk-IsWalk (suc fuel) members boundary ((id, is_seed) ∷ queue) s (flag, q) =
        let w : Walk = record { members = members; boundary = boundary; queue = queue } in
        let step = visit-IsWalk id is_seed w flag (s, q) in
        elim (Option-cases (visit graph deps max_members id is_seed w)) [
          | inl stop ↦ rw stop (s, q)
          | inr (w', e) ↦
              let kept : IsWalk w' = subst IsWalkOrStop e step in
              rw e (walk-IsWalk fuel w'.members w'.boundary w'.queue kept.0 kept.1)
        ]

    -- The second loop only adds pins.
    abbrev Grows : Map ℕ BoundaryPin → Map ℕ BoundaryPin → Type 0
    Grows boundary boundary' =
        (id : ℕ) → is_some (get id boundary) ≡ true → is_some (get id boundary') ≡ true

    -- A dependency that is in the graph is a member or pinned.
    abbrev Covered : List ℕ → Map ℕ BoundaryPin → ℕ → Type 0
    Covered members boundary d =
        (n : Node) → node d graph ≡ some n → is_classified d members boundary ≡ true

    Covered-Grows :
        (members : List ℕ) (boundary boundary' : Map ℕ BoundaryPin) (d : ℕ)
        → Grows boundary boundary'
        → Covered members boundary d
        → Covered members boundary' d
    Covered-Grows members boundary boundary' d grows covered n e =
        ground (arith, covered n e, grows d)

    -- One dependency of the second loop.
    abbrev pin_one : List ℕ → ℕ → Map ℕ BoundaryPin → Map ℕ BoundaryPin
    pin_one members d boundary =
        if is_classified d members boundary
        then boundary
        else pin_known graph deps max_members d (node d graph) boundary

    pin_one_lem :
        (members : List ℕ) (d : ℕ) (boundary : Map ℕ BoundaryPin)
        → IsSection graph max_members seeds members boundary
        → IsSection graph max_members seeds members (pin_one members d boundary)
          × Grows boundary (pin_one members d boundary)
          × Covered members (pin_one members d boundary) d
    pin_one_lem members d boundary s = elim (Bool-cases (is_classified d members boundary)) [
      | inl old ↦ rw old (s, (λ id h. h), λ n e. old)
      | inr new ↦ rw new (elim (Option-cases (node d graph)) [
        | inl gone ↦ rw gone (s, (λ id h. h), λ n e. absurd (ground (arith, gone, e)))
        | inr (n, e) ↦
            let outside : member d members ≡ false = ground (arith, new) in
            let look : (id : ℕ)
                → get id (insert d (pin_of d n) boundary)
                  ≡ (if eqb d id then some (pin_of d n) else get id boundary) =
              λ id. get-insert id d (pin_of d n) boundary in
            rw e (
              pinned-IsSection graph max_members seeds d n members boundary e outside s,
              (λ id h.
                  rw (look id) (elim (Bool-cases (eqb d id)) [
                    | inl hit ↦ rw hit refl
                    | inr miss ↦ rw miss h
                  ])),
              (λ m f.
                  let same_id : eqb d d ≡ true = ground arith in
                  rw (look d, same_id) (ground arith)),
            )
      ])
    ]

    pin_deps_lem :
        (members ds : List ℕ) (boundary : Map ℕ BoundaryPin)
        → IsSection graph max_members seeds members boundary
        → let boundary' = pin_deps graph deps max_members members ds boundary in
          IsSection graph max_members seeds members boundary'
          × Grows boundary boundary'
          × ((d : ℕ) → member d ds ≡ true → Covered members boundary' d)
    unfolding pin_deps member
    pin_deps_lem members [] boundary s = (s, (λ id h. h), λ d m. cc)
    pin_deps_lem members (d ∷ ds) boundary s =
        let (s1, grows1, covered1) = pin_one_lem members d boundary s in
        let (s2, grows2, covered2) = pin_deps_lem members ds (pin_one members d boundary) s1 in
        (
          s2,
          (λ id h. grows2 id (grows1 id h)),
          λ c m. elim (Bool-cases (eqb d c)) [
            | inl hit ↦
                subst
                  (λ (k : ℕ).
                    Covered members
                      (pin_deps graph deps max_members members ds (pin_one members d boundary)) k)
                  (==→eq d c hit)
                  (Covered-Grows members (pin_one members d boundary)
                    (pin_deps graph deps max_members members ds (pin_one members d boundary)) d
                    grows2 covered1)
            | inr miss ↦ covered2 c (ground (arith, m, miss))
          ],
        )

    pin_all_lem :
        (members ids : List ℕ) (boundary : Map ℕ BoundaryPin)
        → IsSection graph max_members seeds members boundary
        → let boundary' = pin_all graph deps max_members members ids boundary in
          IsSection graph max_members seeds members boundary'
          × Grows boundary boundary'
          × ((id d : ℕ)
              → member id ids ≡ true
              → member d (deps_of id deps) ≡ true
              → Covered members boundary' d)
    unfolding pin_all member
    pin_all_lem members [] boundary s = (s, (λ id h. h), λ id d m. cc)
    pin_all_lem members (id ∷ ids) boundary s =
        let ds = sort (deps_of id deps) in
        let boundary1 = pin_deps graph deps max_members members ds boundary in
        let boundary2 = pin_all graph deps max_members members ids boundary1 in
        let (s1, grows1, covered1) = pin_deps_lem members ds boundary s in
        let (s2, grows2, covered2) = pin_all_lem members ids boundary1 s1 in
        (
          s2,
          (λ j h. grows2 j (grows1 j h)),
          λ j d m r. elim (Bool-cases (eqb id j)) [
            | inl hit ↦
                let listed : member d (deps_of id deps) ≡ true =
                  subst (λ (k : ℕ). member d (deps_of k deps) ≡ true) (sym (==→eq id j hit)) r in
                Covered-Grows members boundary1 boundary2 d grows2
                  (covered1 d (member-sort d (deps_of id deps) ∙ listed))
            | inr miss ↦ covered2 j d (ground (arith, m, miss)) r
          ],
        )

-- The section that `build_section_region` collects has at most as many members as allowed; each of
-- them is in the graph and is zero there or a seed; each pin carries the value and version that the
-- node has in the graph; no member is pinned; and every dependency of a member that is in the graph
-- is itself a member or pinned.
pub build_section_region_lem :
    (seeds : List ℕ) (graph : Graph) (deps : DepRegistry) (max_members : ℕ) (region : SectionRegion)
    → build_section_region seeds graph deps max_members ≡ some region
    → IsSection graph max_members seeds region.members region.boundary
      × ((id d : ℕ) (n : Node)
          → member id region.members ≡ true
          → member d (deps_of id deps) ≡ true
          → node d graph ≡ some n
          → is_classified d region.members region.boundary ≡ true)
unfolding build_section_region
build_section_region_lem seeds graph deps max_members region e =
    let fuel = length seeds + dep_total deps.deps in
    let start : IsSection graph max_members seeds [] [] = record {
      small = omega arith;
      held = λ id m. absurd (unfold member in ground (arith, m));
      pins = λ id pin f. absurd (unfold get in ground (arith, f));
      apart = λ id m. unfold get in refl;
    } in
    let out =
      walk-IsWalk graph max_members seeds deps fuel [] [] (seeded seeds) start
        (seeded-Flagged graph max_members seeds seeds (λ id m. m)) in
    elim (Option-cases (walk graph deps max_members fuel [] [] (seeded seeds))) [
      | inl stuck ↦ absurd (ground (arith, e, stuck))
      | inr (w, f) ↦
          let kept : IsWalk graph max_members seeds w =
            subst (IsWalkOrStop graph max_members seeds) f out in
          let (s, grows, covered) =
            pin_all_lem graph max_members seeds deps w.members w.members w.boundary kept.0 in
          let built : SectionRegion = record {
            members = w.members;
            boundary = pin_all graph deps max_members w.members w.members w.boundary;
          } in
          let at : built ≡ region = some-inj (sym (ap (close graph deps max_members) f) ∙ e) in
          subst
            (λ (r : SectionRegion).
              IsSection graph max_members seeds r.members r.boundary
              × ((id d : ℕ) (n : Node)
                  → member id r.members ≡ true
                  → member d (deps_of id deps) ≡ true
                  → node d graph ≡ some n
                  → is_classified d r.members r.boundary ≡ true))
            at (s, λ id d n m r. covered id d m r n)
    ]
