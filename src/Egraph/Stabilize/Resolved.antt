-- ===== src/Egraph/Stabilize/Resolved.antt =====
-- What a value that stabilization settles on means (core-rs/src/egraph.rs).
use pgress.Prelude.{
  ℕ, ◌≡◌, ◌≢◌, refl, sym, ap, subst, ◌∙◌, inl, inr, arith, true, List, [], ◌∷◌, Option, none, some,
  some-inj, eqb, Bool-cases, Option-cases, Map, get, ==→eq, nat_eq,
}
use pgress.Prelude.Sorting.{sort, member, member-sort}
use pgress.Ternary.{T, neg, pos}
use pgress.Graph.{Graph}
use pgress.Deps.{DepRegistry}
use pgress.Egraph.{
  PgrsLang, Symbol, constant, PortCompliance, port_pos, port_neg, port_zero, PortHistory,
  SectionRegion,
}
use pgress.Egraph.Rules.{denote, Derives, Derives-denote, constant-denote}
use pgress.Egraph.Build.{Memo, build_region_exprs}
use pgress.Egraph.Build.Denote.{IsSolution, MeetsRead, build_region_exprs-denote}
use pgress.Egraph.Build.Records.{build_region_exprs_record}
use pgress.Egraph.Stabilize.{
  Saturation, first_constant, check_port_compliance, root_then, roots_of, resolve, saturate_roots,
  has_members, stabilize_section,
}
use pgress.Egraph.Stabilize.Compliance.{AllResolved, check_port_compliance_iff}

-- One constant for each root, and each that is there is the constant of a term that the rules put in
-- one class with the root.
abbrev pub Explains : List PgrsLang → List (Option T) → Type 0
Explains [] [] = Unit
Explains (e ∷ es) (c ∷ cs) =
    ((v : T) → c ≡ some v → (t : PgrsLang) × Derives e t × (constant t ≡ some v)) × Explains es cs
Explains _ _ = ⊥

-- The documented behaviour of saturation by `egg`: classes join only what the rules and congruence
-- equate, and the analysis gives a class the constant of one of its terms.
abbrev pub IsSaturation : Saturation → Type 0
IsSaturation saturate = (roots : List PgrsLang) → Explains roots (saturate roots)

-- The first root and the first constant.
root-value_next :
    (env : Symbol → T) (v : T) (memo : Memo) (j : ℕ) (ids : List ℕ) (constants : List (Option T))
    (id : ℕ) (e f : PgrsLang)
    → get j memo ≡ some f
    → Explains (f ∷ roots_of ids memo) constants
    → AllResolved v constants
    → member id (j ∷ ids) ≡ true
    → get id memo ≡ some e
    → ((cs : List (Option T))
        → Explains (roots_of ids memo) cs
        → AllResolved v cs
        → member id ids ≡ true
        → denote env e ≡ v)
    → denote env e ≡ v
unfolding member
root-value_next env v memo j ids [] id e f g ex all m found rest = absurd ex
root-value_next env v memo j ids (c ∷ constants) id e f g (ex, exs) (at, all) m found rest =
    elim (Bool-cases (eqb j id)) [
      | inl hit ↦
          let other : get id memo ≡ some f =
            subst (λ (k : ℕ). get k memo ≡ some f) (==→eq j id hit) g in
          let same_term : e ≡ f = some-inj (sym found ∙ other) in
          let (t, d, k) = ex v at in
          ap (denote env) same_term ∙ Derives-denote f t env d ∙ constant-denote t env v k
      | inr miss ↦ rest constants exs all (ground (arith, m, miss))
    ]

root-value :
    (env : Symbol → T) (v : T) (memo : Memo) (ids : List ℕ) (constants : List (Option T)) (id : ℕ)
    (e : PgrsLang)
    → Explains (roots_of ids memo) constants
    → AllResolved v constants
    → member id ids ≡ true
    → get id memo ≡ some e
    → denote env e ≡ v
unfolding member
root-value env v memo [] constants id e ex all m found = cc
root-value env v memo (j ∷ ids) constants id e ex all m found = elim (Option-cases (get j memo)) [
  | inl gone ↦
      let skipped : Explains (roots_of ids memo) constants =
        subst (λ (o : Option PgrsLang). Explains (root_then o (roots_of ids memo)) constants) gone
          ex in
      elim (Bool-cases (eqb j id)) [
        | inl hit ↦
            let missing : get id memo ≡ none =
              subst (λ (k : ℕ). get k memo ≡ none) (==→eq j id hit) gone in
            absurd (ground (arith, missing, found))
        | inr miss ↦
            root-value env v memo ids constants id e skipped all (ground (arith, m, miss)) found
      ]
  | inr (f, g) ↦
      let taken : Explains (f ∷ roots_of ids memo) constants =
        subst (λ (o : Option PgrsLang). Explains (root_then o (roots_of ids memo)) constants) g
          ex in
      root-value_next env v memo j ids constants id e f g taken all m found
        (λ cs ex' all' m'. root-value env v memo ids cs id e ex' all' m' found)
]

first_constant-AllResolved :
    (v : T) (constants : List (Option T))
    → constants ≢ []
    → AllResolved v constants
    → first_constant constants ≡ some v
unfolding first_constant
first_constant-AllResolved v [] filled all = absurd (filled refl)
first_constant-AllResolved v (none ∷ constants) filled (e, all) = cc
first_constant-AllResolved v (some w ∷ constants) filled (e, all) = e

-- A constant that all roots share, on a non-empty section.
decided-value :
    (saturate : Saturation) (region : SectionRegion) (graph : Graph) (deps : DepRegistry)
    (env : Symbol → T) (val : ℕ → T) (memo : Memo) (id : ℕ) (v : T)
    → IsSaturation saturate
    → IsSolution region graph deps env val
    → MeetsRead region graph deps
    → build_region_exprs region graph deps ≡ some memo
    → AllResolved v (saturate (roots_of (sort region.members) memo))
    → member id region.members ≡ true
    → val id ≡ v
decided-value saturate region graph deps env val memo id v sound solution meets_read built all m =
    let recorded = build_region_exprs_record region graph deps memo id built m in
    elim (Option-cases (get id memo)) [
      | inl gone ↦ absurd (ground (arith, recorded, gone))
      | inr (e, found) ↦
          sym (
            build_region_exprs-denote region graph deps env val memo id e solution meets_read built
              found)
          ∙ root-value env v memo (sort region.members)
              (saturate (roots_of (sort region.members) memo)) id e
              (sound (roots_of (sort region.members) memo)) all (member-sort id region.members ∙ m)
              found
    ]

abbrev SettlesOn : (ℕ → T) → List ℕ → Option (Option T × PortCompliance) → Type 0
SettlesOn val members none = Unit
SettlesOn val members (some (none, c)) = Unit
SettlesOn val members (some (some v, c)) = (id : ℕ) → member id members ≡ true → val id ≡ v

saturate_roots-SettlesOn :
    (saturate : Saturation) (region : SectionRegion) (graph : Graph) (deps : DepRegistry)
    (histories : Map ℕ PortHistory) (env : Symbol → T) (val : ℕ → T) (memo : Memo)
    → IsSaturation saturate
    → IsSolution region graph deps env val
    → MeetsRead region graph deps
    → build_region_exprs region graph deps ≡ some memo
    → SettlesOn val region.members (saturate_roots saturate region histories (some memo))
saturate_roots-SettlesOn saturate region graph deps histories env val memo sound solution meets_read
      built =
    by_compliance (check_port_compliance region constants histories) refl
  where
    constants : List (Option T)
    constants = saturate (roots_of (sort region.members) memo)

    settled :
        (v : T)
        → (constants ≢ []) × AllResolved v constants
        → (c : PortCompliance) → SettlesOn val region.members (some (first_constant constants, c))
    settled v (filled, all) c = rw (first_constant-AllResolved v constants filled all) λ id m.
        decided-value saturate region graph deps env val memo id v sound solution meets_read built
          all m

    by_compliance :
        (c : PortCompliance)
        → check_port_compliance region constants histories ≡ c
        → SettlesOn val region.members (some (resolve constants c))
    by_compliance (port_zero k) e = tt
    by_compliance port_pos e =
        settled pos ((check_port_compliance_iff region histories constants).0.0 e) port_pos
    by_compliance port_neg e =
        settled neg ((check_port_compliance_iff region histories constants).1.0 e) port_neg

-- If `stabilize_section` settles on a value for a section whose MeetAll members have a dependency
-- each, then every solution of the section's equations gives that value to every member, provided
-- that saturation equates only what the rules and congruence equate.
pub stabilize_section-solution :
    (saturate : Saturation) (region : SectionRegion) (graph : Graph) (deps : DepRegistry)
    (histories : Map ℕ PortHistory) (env : Symbol → T) (val : ℕ → T) (v : T) (c : PortCompliance)
    (id : ℕ)
    → IsSaturation saturate
    → IsSolution region graph deps env val
    → MeetsRead region graph deps
    → stabilize_section saturate region graph deps histories ≡ some (some v, c)
    → member id region.members ≡ true
    → val id ≡ v
unfolding stabilize_section
stabilize_section-solution saturate region graph deps histories env val v c id sound solution
      meets_read h m =
    elim (Bool-cases (has_members region.members)) [
      | inl some_members ↦ elim (Option-cases (build_region_exprs region graph deps)) [
        | inl stuck ↦ absurd (ground (arith, h, some_members, stuck))
        | inr (memo, built) ↦
            let out =
              saturate_roots-SettlesOn saturate region graph deps histories env val memo sound
                solution meets_read built in
            let at : saturate_roots saturate region histories (some memo) ≡ some (some v, c) =
              sym (ap (saturate_roots saturate region histories) built)
              ∙ (sym (rw some_members refl) ∙ h) in
            subst (SettlesOn val region.members) at out id m
      ]
      | inr no_members ↦ absurd (ground (arith, h, no_members))
    ]
