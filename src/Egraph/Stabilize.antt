-- ===== src/Egraph/Stabilize.antt =====
-- Stabilization of core-rs/src/egraph.rs over saturation by the crate `egg`, which is a parameter: a
-- function from the expressions of a runner to the constants of their classes afterwards. Before any
-- rule has run each class has one node, so the extractor gives back the expression that was added.
pub mod Compliance
pub mod Resolved
use pgress.Prelude.{
  is_some, ℕ, Bool, true, false, ◌&&◌, List, [], ◌∷◌, Option, none, some, if◌then◌else◌, Map, get,
  nat_eq,
}
use pgress.Prelude.Sorting.{sort}
use pgress.Ternary.{T, neg, pos, same}
use pgress.Graph.{Graph}
use pgress.Deps.{DepRegistry}
use pgress.Egraph.{
  PgrsLang, StabZeroKind, structural, boundary, PortCompliance, port_pos, port_neg, port_zero,
  PortHistory, is_oscillating, BoundaryPin, SectionRegion,
}
use pgress.Egraph.Section.{build_section_region}
use pgress.Egraph.Build.{Memo, build_region_exprs}

-- The constant of each root, in the order of the expressions.
abbrev pub Saturation : Type 0
Saturation = List PgrsLang → List (Option T)

-- `iter().find_map(..)`.
unfoldable pub first_constant : List (Option T) → Option T
first_constant [] = none
first_constant (none ∷ constants) = first_constant constants
first_constant (some v ∷ constants) = some v

unfoldable pub stabilize : Saturation → List PgrsLang → Option T
unfolding first_constant
stabilize saturate exprs = first_constant (saturate exprs)

-- Where the loop over the roots ends: at two roots that disagree, or with the constant agreed on and
-- whether every root has one.
pub data Agreement : Type 0 where
  disagree : Agreement
  agree : Option T → Bool → Agreement

abbrev pub same_as : T → Option T → Bool
same_as v none = true
same_as v (some existing) = same existing v

unfoldable pub agreement : List (Option T) → Option T → Bool → Agreement
agreement [] agreed all_resolved = agree agreed all_resolved
agreement (none ∷ constants) agreed all_resolved = agreement constants agreed false
agreement (some T.zero ∷ constants) agreed all_resolved = agreement constants agreed false
agreement (some neg ∷ constants) agreed all_resolved =
    let rest = agreement constants (some neg) all_resolved in
    if same_as neg agreed then rest else disagree
agreement (some pos ∷ constants) agreed all_resolved =
    let rest = agreement constants (some pos) all_resolved in
    if same_as pos agreed then rest else disagree

abbrev pub some_pin : Map ℕ BoundaryPin → Bool
some_pin [] = false
some_pin ((id, pin) ∷ pins) = if same pin.value T.zero then true else some_pin pins

abbrev pub some_oscillates : Map ℕ PortHistory → Bool
some_oscillates [] = false
some_oscillates ((id, h) ∷ histories) = if is_oscillating h then true else some_oscillates histories

-- The tests after the constants.
abbrev pub obstruction : SectionRegion → Map ℕ PortHistory → PortCompliance
obstruction region histories =
    if some_pin region.boundary
    then port_zero boundary
    else if some_oscillates histories
    then port_zero boundary
    else port_zero structural

abbrev pub judge : SectionRegion → Map ℕ PortHistory → Agreement → PortCompliance
judge region histories disagree = port_zero structural
judge region histories (agree (some pos) true) = port_pos
judge region histories (agree (some neg) true) = port_neg
judge region histories (agree (some T.zero) true) = port_zero structural
judge region histories (agree none true) = obstruction region histories
judge region histories (agree agreed false) = obstruction region histories

unfoldable pub check_port_compliance :
    SectionRegion → List (Option T) → Map ℕ PortHistory → PortCompliance
unfolding agreement is_oscillating
check_port_compliance region constants histories =
    judge region histories (agreement constants none true)

-- `filter_map(|id| node_roots.get(id))`.
abbrev pub root_then : Option PgrsLang → List PgrsLang → List PgrsLang
root_then none roots = roots
root_then (some e) roots = e ∷ roots

abbrev pub roots_of : List ℕ → Memo → List PgrsLang
roots_of [] memo = []
roots_of (id ∷ ids) memo = root_then (get id memo) (roots_of ids memo)

abbrev pub resolve : List (Option T) → PortCompliance → Option T × PortCompliance
resolve constants port_pos = (first_constant constants, port_pos)
resolve constants port_neg = (first_constant constants, port_neg)
resolve constants (port_zero k) = (none, port_zero k)

abbrev pub saturate_roots :
    Saturation
    → SectionRegion
    → Map ℕ PortHistory
    → Option Memo
    → Option (Option T × PortCompliance)
saturate_roots saturate region histories none = none
saturate_roots saturate region histories (some memo) =
    let constants = saturate (roots_of (sort region.members) memo) in
    some (resolve constants (check_port_compliance region constants histories))

abbrev pub has_members : List ℕ → Bool
has_members [] = false
has_members (id ∷ ids) = true

-- `none` if the builder runs out of its fuel.
unfoldable pub stabilize_section :
    Saturation
    → SectionRegion
    → Graph
    → DepRegistry
    → Map ℕ PortHistory
    → Option (Option T × PortCompliance)
unfolding build_region_exprs check_port_compliance first_constant sort get
stabilize_section saturate region graph deps histories =
    if has_members region.members
    then saturate_roots saturate region histories (build_region_exprs region graph deps)
    else some (none, port_zero structural)

-- `match compliance { Pos | Neg => val, _ => None }`.
abbrev pub value_if_decided : Option T × PortCompliance → Option T
value_if_decided (val, port_pos) = val
value_if_decided (val, port_neg) = val
value_if_decided (val, port_zero k) = none

abbrev pub stabilize_built :
    Saturation → Graph → DepRegistry → Option SectionRegion → Option (Option T)
stabilize_built saturate graph deps none = none
stabilize_built saturate graph deps (some region) =
    elim (stabilize_section saturate region graph deps []) [
      | none ↦ none
      | some outcome ↦ some (value_if_decided outcome)
    ]

unfoldable pub stabilize_nodes : Saturation → List ℕ → Graph → DepRegistry → Option (Option T)
unfolding build_section_region stabilize_section
stabilize_nodes saturate node_ids graph deps =
    stabilize_built saturate graph deps (build_section_region node_ids graph deps 64)
