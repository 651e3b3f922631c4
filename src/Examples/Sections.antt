-- ===== src/Examples/Sections.antt =====
-- A section of an input and a node that copies it, stabilized without any rewriting.
use pgress.Prelude.{
  ℕ, zero, suc, ◌≡◌, ◌≢◌, ◌↔◌, ◌⊎◌, inl, inr, refl, sym, ap, subst, ◌∙◌, some-inj, arith, true,
  false, ◌||◌, List, [], ◌∷◌, some, map, eqb, if◌then◌else◌, get, insert, entry, nat_eq, pair_eq,
}
use pgress.Prelude.Sorting.{member, sort, insert_sorted, add}
use pgress.Ternary.{T, pos, neg}
use pgress.Node.{Node, input, computed, ComputeRule, identity, fresh_node, eval}
use pgress.Graph.{Graph, node}
use pgress.Deps
use pgress.Deps.{DepRegistry, subscribe, subscribe_with_meta, bump_epoch, deps_of, ordered_deps_of}
use pgress.Egraph.{
  Term, Symbol, mu, bnd, constant, lit, SectionRegion, port_pos, port_neg, no_history,
  is_oscillating,
}
use pgress.Egraph.Rules.{denote, same_term}
use pgress.Egraph.History.{run_updates, is_oscillating-run_updates}
use pgress.Egraph.Section.{
  build_section_region, walk, visit, classify, pin_all, pin_deps, is_classified,
}
use pgress.Egraph.Section.Classified.{build_section_region_lem}
use pgress.Egraph.Section.Members.{IsSection}
use pgress.Egraph.Build.{
  Memo, literal_of, build_region_exprs, build_each, build_node_expr, build_deps, rule_to_node,
}
use pgress.Egraph.Build.Denote.{IsSolution, MeetsRead, build_region_exprs-denote}
use pgress.Egraph.Stabilize.{
  Saturation, stabilize_section, check_port_compliance, agreement, first_constant,
}
use pgress.Egraph.Stabilize.Compliance.{AllResolved, check_port_compliance_iff}
use pgress.Egraph.Stabilize.Resolved.{IsSaturation, stabilize_section-solution}

abbrev source : Node
source = record (fresh_node 1 "in" input) { value = pos }

abbrev copy : Node
copy = record (fresh_node 2 "copy" (computed identity)) { value = T.zero }

abbrev graph : Graph
graph = record { nodes = (1, source) ∷ (2, copy) ∷ []; edges = [] }

abbrev registry : DepRegistry
registry = subscribe 1 2 Deps.new

abbrev section : SectionRegion
section = record { members = 1 ∷ 2 ∷ []; boundary = [] }

abbrev val : ℕ → T
val d = if eqb d 1 || eqb d 2 then pos else neg

abbrev env : Symbol → T
env (mu id) = val id
env (bnd uid version) = val uid

-- The analysis alone.
abbrev pub analyse : Saturation
analyse = map constant

analyse-IsSaturation : IsSaturation analyse
analyse-IsSaturation [] = tt
analyse-IsSaturation (e ∷ roots) = ((λ v h. (e, same_term e, h)), analyse-IsSaturation roots)

-- The members are 1 and 2.
two_members : (id : ℕ) → member id section.members ≡ true → (id ≡ 1) ⊎ (id ≡ 2)
unfolding member
two_members id m = ground (arith, m)

section-inputs :
    (id : ℕ) (n : Node)
    → member id section.members ≡ true
    → node id graph ≡ some n
    → n.kind ≡ input
    → n.value ≡ val id
unfolding node get
section-inputs id n m e k = elim (two_members id m) [
  | inl at ↦
      let found : some source ≡ some n = subst (λ (j : ℕ). node j graph ≡ some n) at e in
      rw at (ap (λ (o : Node). o.value) (sym (some-inj found)))
  | inr at ↦
      let found : some copy ≡ some n = subst (λ (j : ℕ). node j graph ≡ some n) at e in
      absurd (let kind_eq = ap (λ (o : Node). o.kind) (some-inj found) ∙ k in cc)
]

section-rules :
    (id : ℕ) (n : Node) (rule : ComputeRule)
    → member id section.members ≡ true
    → node id graph ≡ some n
    → n.kind ≡ computed rule
    → eval rule (map val (ordered_deps_of id registry)) ≡ some (val id)
unfolding node get ordered_deps_of subscribe subscribe_with_meta bump_epoch entry insert eval
section-rules id n rule m e k = elim (two_members id m) [
  | inl at ↦
      let found : some source ≡ some n = subst (λ (j : ℕ). node j graph ≡ some n) at e in
      absurd (let kind_eq = ap (λ (o : Node). o.kind) (some-inj found) ∙ k in cc)
  | inr at ↦
      let found : some copy ≡ some n = subst (λ (j : ℕ). node j graph ≡ some n) at e in
      let kind_eq : computed identity ≡ computed rule =
        ap (λ (o : Node). o.kind) (some-inj found) ∙ k in
      let is_copy : identity ≡ rule = cc in rw (at, sym is_copy) refl
]

section-outside :
    (d : ℕ) → member d section.members ≡ false → denote env (literal_of (node d graph)) ≡ val d
unfolding member node get denote
section-outside zero m = refl
section-outside (suc zero) m = cc
section-outside (suc (suc zero)) m = cc
section-outside (suc (suc (suc d))) m = ground arith

section-IsSolution : IsSolution section graph registry env val
unfolding get
section-IsSolution = record {
  pinned = λ d pin h. cc;
  looped = λ id m. refl;
  inputs = section-inputs;
  rules_hold = section-rules;
  outside = λ d m h. section-outside d m;
  absent = λ id m e. absurd (
      unfold node in
      elim (two_members id m) [ inl at ↦ ground (arith, at, e) | inr at ↦ ground (arith, at, e) ]);
}

section-MeetsRead : MeetsRead section graph registry
unfolding node get
section-MeetsRead id n m e k = elim (two_members id m) [
  | inl at ↦
      let found : some source ≡ some n = subst (λ (j : ℕ). node j graph ≡ some n) at e in
      absurd (let kind_eq = ap (λ (o : Node). o.kind) (some-inj found) ∙ k in cc)
  | inr at ↦
      let found : some copy ≡ some n = subst (λ (j : ℕ). node j graph ≡ some n) at e in
      absurd (let kind_eq = ap (λ (o : Node). o.kind) (some-inj found) ∙ k in cc)
]

section_settles : stabilize_section analyse section graph registry [] ≡ some (some pos, port_pos)
unfolding stabilize_section build_region_exprs build_each build_node_expr build_deps rule_to_node
    check_port_compliance agreement first_constant constant lit sort insert_sorted member get insert
    node ordered_deps_of subscribe subscribe_with_meta bump_epoch entry
section_settles = refl

stabilize_section_example : val 2 ≡ pos
stabilize_section_example =
    stabilize_section-solution analyse section graph registry [] env val pos port_pos 2
      analyse-IsSaturation section-IsSolution section-MeetsRead section_settles
      (unfold member in refl)

abbrev memo : Memo
memo = (1, Term.lit_pos) ∷ (2, Term.lit_pos) ∷ []

memo_built : build_region_exprs section graph registry ≡ some memo
unfolding build_region_exprs build_each build_node_expr build_deps rule_to_node lit sort
    insert_sorted member get insert node ordered_deps_of subscribe subscribe_with_meta bump_epoch
    entry
memo_built = refl

build_region_exprs_example : denote env Term.lit_pos ≡ val 2
build_region_exprs_example =
    build_region_exprs-denote section graph registry env val memo 2 Term.lit_pos section-IsSolution
      section-MeetsRead memo_built (unfold get in refl)

compliance_example :
    ((check_port_compliance section (some pos ∷ []) [] ≡ port_pos)
      ↔ ((some pos ∷ [] ≢ []) × AllResolved pos (some pos ∷ [])))
    × ((check_port_compliance section (some pos ∷ []) [] ≡ port_neg)
        ↔ ((some pos ∷ [] ≢ []) × AllResolved neg (some pos ∷ [])))
compliance_example = check_port_compliance_iff section [] (some pos ∷ [])

abbrev collected : SectionRegion
collected = record {
  members = 2 ∷ [];
  boundary = (1, record { uid = 1; version = 0; value = pos }) ∷ [];
}

section_collected : build_section_region (2 ∷ []) graph registry 64 ≡ some collected
unfolding build_section_region walk visit classify pin_all pin_deps member add get insert node
    deps_of subscribe subscribe_with_meta bump_epoch entry sort insert_sorted
section_collected = refl

build_section_region_example :
    IsSection graph 64 (2 ∷ []) collected.members collected.boundary
    × ((id d : ℕ) (n : Node)
        → member id collected.members ≡ true
        → member d (deps_of id registry) ≡ true
        → node d graph ≡ some n
        → is_classified d collected.members collected.boundary ≡ true)
build_section_region_example =
    build_section_region_lem (2 ∷ []) graph registry 64 collected section_collected

abbrev swings : List (T × ℕ)
swings = (pos, 1) ∷ (neg, 2) ∷ (pos, 3) ∷ (neg, 4) ∷ (pos, 5) ∷ []

run_updates_example :
    ((run_updates swings no_history).alternating_count ≡ 0)
    × (is_oscillating (run_updates swings no_history) ≡ false)
run_updates_example = is_oscillating-run_updates swings
