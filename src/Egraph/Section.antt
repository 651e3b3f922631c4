-- ===== src/Egraph/Section.antt =====
-- `build_section_region` of core-rs/src/egraph.rs: the walk that collects a section and its boundary.
-- The `while` loop runs on fuel; each node enters the members at most once and queues its dependencies
-- then, so the queue's length and the number of dependencies on record are enough.
pub mod Fuel
pub mod Members
pub mod Classified
use pgress.Prelude.{
  is_some, ℕ, zero, suc, ◌+◌, Bool, true, false, not, ◌&&◌, ◌||◌, List, [], ◌∷◌, ◌++◌, Option, none,
  some, length, leb, map, if◌then◌else◌, Map, get, insert, nat_eq,
}
use pgress.Prelude.Sorting.{sort, member, add}
use pgress.Ternary.{T, same}
use pgress.Node.{Node}
use pgress.Graph.{Graph, node}
use pgress.Deps.{DepRegistry, deps_of}
use pgress.Egraph.{BoundaryPin, SectionRegion}

-- What the loop keeps; the queue holds ids with the flag of a seed.
pub record Walk : Type 0 where
  pub members : List ℕ
  pub boundary : Map ℕ BoundaryPin
  pub queue : List (ℕ × Bool)

-- `members.contains(&id) || boundary.contains_key(&id)`.
abbrev pub is_classified : ℕ → List ℕ → Map ℕ BoundaryPin → Bool
is_classified id members boundary = member id members || is_some (get id boundary)

abbrev pub pin_of : ℕ → Node → BoundaryPin
pin_of id n = record { uid = id; version = n.version; value = n.value }

-- The dependencies that are queued.
abbrev pub queued : List ℕ → Map ℕ BoundaryPin → List ℕ → List (ℕ × Bool)
queued members boundary [] = []
queued members boundary (dep ∷ deps) =
    if is_classified dep members boundary
    then queued members boundary deps
    else (dep, false) ∷ queued members boundary deps

module _ (graph : Graph) (deps : DepRegistry) (max_members : ℕ) where
  -- A node of the graph that is not classified yet; `none` is the `break`.
  unfoldable pub classify : ℕ → Bool → Node → Walk → Option Walk
  unfolding add deps_of sort
  classify id is_seed n w =
      let members = add id w.members in
      if not is_seed && not (same n.value T.zero)
      then some (record w { boundary = insert id (pin_of id n) w.boundary })
      else if leb max_members (length w.members)
      then none
      else some (record {
        members = members;
        boundary = w.boundary;
        queue = w.queue ++ queued members w.boundary (sort (deps_of id deps));
      })

  abbrev pub classify_node : ℕ → Bool → Option Node → Walk → Option Walk
  classify_node id is_seed none w = some w
  classify_node id is_seed (some n) w = classify id is_seed n w

  -- The body of the loop, on the walk without the popped entry.
  unfoldable pub visit : ℕ → Bool → Walk → Option Walk
  unfolding classify node member get
  visit id is_seed w =
      if is_classified id w.members w.boundary
      then some w
      else classify_node id is_seed (node id graph) w

  -- The next round, or the end of the loop.
  abbrev pub go_on : (Walk → Option Walk) → Walk → Option Walk → Option Walk
  go_on next w none = some w
  go_on next w (some w') = next w'

  -- `none` if the fuel runs out.
  unfoldable pub walk : ℕ → List ℕ → Map ℕ BoundaryPin → List (ℕ × Bool) → Option Walk
  unfolding visit
  walk fuel members boundary [] =
      some (record { members = members; boundary = boundary; queue = [] })
  walk zero members boundary (entry ∷ queue) = none
  walk (suc fuel) members boundary ((id, is_seed) ∷ queue) =
      let w : Walk = record { members = members; boundary = boundary; queue = queue } in
      go_on (λ w'. walk fuel w'.members w'.boundary w'.queue) w (visit id is_seed w)

  abbrev pub pin_known : ℕ → Option Node → Map ℕ BoundaryPin → Map ℕ BoundaryPin
  pin_known dep none boundary = boundary
  pin_known dep (some n) boundary = insert dep (pin_of dep n) boundary

  -- The second loop, for the dependencies of one member.
  unfoldable pub pin_deps : List ℕ → List ℕ → Map ℕ BoundaryPin → Map ℕ BoundaryPin
  unfolding node insert
  pin_deps members [] boundary = boundary
  pin_deps members (dep ∷ ds) boundary =
      let boundary' = pin_known dep (node dep graph) boundary in
      pin_deps members ds (if is_classified dep members boundary then boundary else boundary')

  unfoldable pub pin_all : List ℕ → List ℕ → Map ℕ BoundaryPin → Map ℕ BoundaryPin
  unfolding pin_deps
  pin_all members [] boundary = boundary
  pin_all members (id ∷ ids) boundary =
      pin_all members ids (pin_deps members (sort (deps_of id deps)) boundary)

  abbrev pub close : Option Walk → Option SectionRegion
  close none = none
  close (some w) =
      some (record { members = w.members; boundary = pin_all w.members w.members w.boundary })

-- The number of dependencies on record.
abbrev pub dep_total : Map ℕ (List ℕ) → ℕ
dep_total [] = 0
dep_total ((id, ds) ∷ m) = length ds + dep_total m

abbrev pub seeded : List ℕ → List (ℕ × Bool)
seeded seeds = map (λ id. (id, true)) seeds

unfoldable pub build_section_region : List ℕ → Graph → DepRegistry → ℕ → Option SectionRegion
unfolding walk pin_all
build_section_region seeds graph deps max_members =
    let fuel = length seeds + dep_total deps.deps in
    close graph deps max_members (walk graph deps max_members fuel [] [] (seeded seeds))
