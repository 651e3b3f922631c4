-- ===== src/Egraph/Stabilize/Compliance.antt =====
-- When a section has `PortCompliance::Pos` or `Neg` (core-rs/src/egraph.rs).
use pgress.Prelude.{
  ℕ, ◌≡◌, ◌≢◌, ◌↔◌, ◌⊎◌, refl, sym, inl, inr, arith, Bool, true, false, List, [], ◌∷◌, Option, none,
  some, some-inj, All, Map, Bool-cases,
}
use pgress.Ternary.{T, neg, pos}
use pgress.Ternary.Algebra.{same→eq}
use pgress.Egraph.{PortCompliance, port_pos, port_neg, PortHistory, SectionRegion}
use pgress.Egraph.Stabilize.{
  Agreement, disagree, agree, same_as, agreement, some_pin, some_oscillates, obstruction, judge,
  check_port_compliance,
}

-- Every root has the constant `v`.
abbrev pub AllResolved : T → List (Option T) → Type 0
AllResolved v constants = All (λ c. c ≡ some v) constants

abbrev Start : T → Option T → List (Option T) → Type 0
Start v agreed constants = (agreed ≡ some v) ⊎ (agreed ≡ none) × (constants ≢ [])

-- One root with a constant that is not zero.
Start-next :
    (v w : T) (agreed : Option T) (constants : List (Option T))
    → same_as w agreed ≡ true
    → Start v (some w) constants
    → (some w ≡ some v) × Start v agreed (some w ∷ constants)
Start-next v w none constants h (inl e) = (e, inr (refl, λ empty. cc))
Start-next v w (some u) constants h (inl e) = (e, inl (cc (same→eq u w h)))
Start-next v w agreed constants h (inr (e, filled)) = absurd (cc)

agreement-AllResolved :
    (v : T) (constants : List (Option T)) (agreed : Option T) (flag : Bool)
    → agreement constants agreed flag ≡ agree (some v) true
    → (flag ≡ true) × AllResolved v constants × Start v agreed constants
unfolding agreement
agreement-AllResolved v [] agreed flag h = (cc, tt, inl (cc))
agreement-AllResolved v (none ∷ constants) agreed flag h = absurd (
    let (off, rest, start) = agreement-AllResolved v constants agreed false h in
    ground (arith, off))
agreement-AllResolved v (some T.zero ∷ constants) agreed flag h = absurd (
    let (off, rest, start) = agreement-AllResolved v constants agreed false h in
    ground (arith, off))
agreement-AllResolved v (some neg ∷ constants) agreed flag h =
    elim (Bool-cases (same_as neg agreed)) [
      | inl fits ↦
          let (on, rest, start) =
            agreement-AllResolved v constants (some neg) flag (ground (arith, h, fits)) in
          let next = Start-next v neg agreed constants fits start in (on, (next.0, rest), next.1)
      | inr clash ↦ absurd (ground (arith, h, clash))
    ]
agreement-AllResolved v (some pos ∷ constants) agreed flag h =
    elim (Bool-cases (same_as pos agreed)) [
      | inl fits ↦
          let (on, rest, start) =
            agreement-AllResolved v constants (some pos) flag (ground (arith, h, fits)) in
          let next = Start-next v pos agreed constants fits start in (on, (next.0, rest), next.1)
      | inr clash ↦ absurd (ground (arith, h, clash))
    ]

-- The other way round, for a constant that is not zero.
AllResolved-agreement :
    (v : T) (constants : List (Option T)) (agreed : Option T)
    → v ≢ T.zero
    → same_as v agreed ≡ true
    → AllResolved v constants
    → agreement constants agreed true
      ≡ elim constants [ [] ↦ agree agreed true | c ∷ cs ↦ agree (some v) true ]
unfolding agreement
AllResolved-agreement v [] agreed ne fits all = refl
AllResolved-agreement v (none ∷ constants) agreed ne fits (e, all) = cc
AllResolved-agreement v (some T.zero ∷ constants) agreed ne fits (e, all) =
    absurd (ne (sym (some-inj e)))
AllResolved-agreement v (some neg ∷ []) agreed ne fits (e, all) =
    let at : neg ≡ v = some-inj e in ground (arith, at, fits)
AllResolved-agreement v (some pos ∷ []) agreed ne fits (e, all) =
    let at : pos ≡ v = some-inj e in ground (arith, at, fits)
AllResolved-agreement v (some neg ∷ c ∷ constants) agreed ne fits (e, all) =
    let at : neg ≡ v = some-inj e in
    let same_const : same_as v (some neg) ≡ true = rw (sym at) refl in
    let fits' : same_as neg agreed ≡ true = rw at fits in
    rw fits' (AllResolved-agreement v (c ∷ constants) (some neg) ne same_const all)
AllResolved-agreement v (some pos ∷ c ∷ constants) agreed ne fits (e, all) =
    let at : pos ≡ v = some-inj e in
    let same_const : same_as v (some pos) ≡ true = rw (sym at) refl in
    let fits' : same_as pos agreed ≡ true = rw at fits in
    rw fits' (AllResolved-agreement v (c ∷ constants) (some pos) ne same_const all)

obstruction-undecided :
    (region : SectionRegion) (histories : Map ℕ PortHistory)
    → (obstruction region histories ≢ port_pos) × (obstruction region histories ≢ port_neg)
obstruction-undecided region histories = elim (Bool-cases (some_pin region.boundary)) [
  | inl pin ↦ rw pin ((λ h. cc), λ h. cc)
  | inr no_pin ↦ rw no_pin (elim (Bool-cases (some_oscillates histories)) [
    | inl swings ↦ rw swings ((λ h. cc), λ h. cc)
    | inr calm ↦ rw calm ((λ h. cc), λ h. cc)
  ])
]

judge-decided :
    (region : SectionRegion) (histories : Map ℕ PortHistory) (outcome : Agreement)
    → (judge region histories outcome ≡ port_pos → outcome ≡ agree (some pos) true)
      × (judge region histories outcome ≡ port_neg → outcome ≡ agree (some neg) true)
judge-decided region histories disagree = ((λ h. cc), λ h. cc)
judge-decided region histories (agree (some pos) true) = ((λ h. refl), λ h. cc)
judge-decided region histories (agree (some neg) true) = ((λ h. cc), λ h. refl)
judge-decided region histories (agree (some T.zero) true) = ((λ h. cc), λ h. cc)
judge-decided region histories (agree none true) =
    let un = obstruction-undecided region histories in
    ((λ h. absurd (un.0 h)), λ h. absurd (un.1 h))
judge-decided region histories (agree agreed false) =
    let un = obstruction-undecided region histories in
    ((λ h. absurd (un.0 h)), λ h. absurd (un.1 h))

decided :
    (v : T) (c : PortCompliance) (region : SectionRegion) (histories : Map ℕ PortHistory)
    (constants : List (Option T))
    → v ≢ T.zero
    → judge region histories (agree (some v) true) ≡ c
    → ((outcome : Agreement) → judge region histories outcome ≡ c → outcome ≡ agree (some v) true)
    → (check_port_compliance region constants histories ≡ c)
      ↔ ((constants ≢ []) × AllResolved v constants)
unfolding check_port_compliance
decided v c region histories [] ne there back = (
  (λ h. absurd (unfold agreement in let e = back (agree none true) h in cc)),
  λ (filled, all). absurd (filled refl),
)
decided v c region histories (k ∷ constants) ne there back = (
  (λ h.
      let e = back (agreement (k ∷ constants) none true) h in
      let (on, all, start) = agreement-AllResolved v (k ∷ constants) none true e in
      ((λ empty. cc), all)),
  λ (filled, all). rw (AllResolved-agreement v (k ∷ constants) none ne refl all) there,
)

-- The compliance of a section is `Pos` exactly if there is a root and the constant of every root is
-- pos, and `Neg` exactly if there is a root and the constant of every root is neg; its boundary and
-- the port histories have no part in that.
pub check_port_compliance_iff :
    (region : SectionRegion) (histories : Map ℕ PortHistory) (constants : List (Option T))
    → ((check_port_compliance region constants histories ≡ port_pos)
        ↔ ((constants ≢ []) × AllResolved pos constants))
      × ((check_port_compliance region constants histories ≡ port_neg)
          ↔ ((constants ≢ []) × AllResolved neg constants))
check_port_compliance_iff region histories constants = (
  decided pos port_pos region histories constants (λ e. cc) refl
      (λ outcome. (judge-decided region histories outcome).0),
  decided neg port_neg region histories constants (λ e. cc) refl
      (λ outcome. (judge-decided region histories outcome).1),
)
