-- ===== src/Egraph/Section/Members.antt =====
-- The members and pins of a section (core-rs/src/egraph.rs) while they are collected.
use pgress.Prelude.{
  is_some, ℕ, ◌+◌, ◌≤◌, ◌<◌, ◌≡◌, ◌⊎◌, refl, sym, subst, ◌∙◌, inl, inr, arith, true, false, List,
  [], ◌∷◌, Option, none, some, some-inj, length, length-append, eqb, ==→eq, Bool-cases, Map, get,
  insert, get-insert, nat_eq,
}
use pgress.Prelude.Sorting.{member, add, member-add}
use pgress.Ternary.{T, same}
use pgress.Node.{Node}
use pgress.Graph.{Graph, node}
use pgress.Egraph.{BoundaryPin}
use pgress.Egraph.Section.{pin_of}

-- What holds of the members and the boundary all along.
pub record IsSection (graph : Graph) (max_members : ℕ) (seeds members : List ℕ)
    (boundary : Map ℕ BoundaryPin) : Type 0 where
  pub small : length members ≤ max_members
  pub held :
      (id : ℕ)
      → member id members ≡ true
      → (n : Node) × (node id graph ≡ some n)
        × ((same n.value T.zero ≡ true) ⊎ (member id seeds ≡ true))
  pub pins :
      (id : ℕ) (pin : BoundaryPin)
      → get id boundary ≡ some pin
      → (n : Node) × (node id graph ≡ some n) × (pin ≡ pin_of id n)
  pub apart : (id : ℕ) → member id members ≡ true → get id boundary ≡ none

pub is_some-false : {A : Type 0} (o : Option A) → is_some o ≡ false → o ≡ none
is_some-false none h = refl
is_some-false (some a) h = cc

length-add : (id : ℕ) (xs : List ℕ) → length (add id xs) ≤ length xs + 1
unfolding add
length-add id xs = ground (arith, length-append xs (id ∷ []))

module _ (graph : Graph) (max_members : ℕ) (seeds : List ℕ) where
  -- A pin of a node that is no member.
  pub pinned-IsSection :
      (id : ℕ) (n : Node) (members : List ℕ) (boundary : Map ℕ BoundaryPin)
      → node id graph ≡ some n
      → member id members ≡ false
      → IsSection graph max_members seeds members boundary
      → IsSection graph max_members seeds members (insert id (pin_of id n) boundary)
  pinned-IsSection id n members boundary e out s = record {
    small = s.small;
    held = s.held;
    pins = λ j pin f. elim (Bool-cases (eqb id j)) [
      | inl hit ↦
          let new_pin : pin_of id n ≡ pin =
            some-inj (sym (get-insert j id (pin_of id n) boundary ∙ rw hit refl) ∙ f) in
          subst (λ (k : ℕ). (m : Node) × (node k graph ≡ some m) × (pin ≡ pin_of k m))
            (==→eq id j hit) (n, e, sym new_pin)
      | inr miss ↦ s.pins j pin (sym (get-insert j id (pin_of id n) boundary ∙ rw miss refl) ∙ f)
    ];
    apart = λ j m. elim (Bool-cases (eqb id j)) [
      | inl hit ↦
          let clash : member j members ≡ false =
            subst (λ (k : ℕ). member k members ≡ false) (==→eq id j hit) out in
          absurd (ground (arith, m, clash))
      | inr miss ↦ get-insert j id (pin_of id n) boundary ∙ rw miss (s.apart j m)
    ];
  }

  -- A new member.
  pub added-IsSection :
      (id : ℕ) (n : Node) (members : List ℕ) (boundary : Map ℕ BoundaryPin)
      → node id graph ≡ some n
      → get id boundary ≡ none
      → length members < max_members
      → (same n.value T.zero ≡ true) ⊎ (member id seeds ≡ true)
      → IsSection graph max_members seeds members boundary
      → IsSection graph max_members seeds (add id members) boundary
  added-IsSection id n members boundary e out room why s = record {
    small = omega (arith, length-add id members);
    held = λ j m. elim (Bool-cases (eqb id j)) [
      | inl hit ↦
          subst
            (λ (k : ℕ).
              (o : Node) × (node k graph ≡ some o)
              × ((same o.value T.zero ≡ true) ⊎ (member k seeds ≡ true)))
            (==→eq id j hit) (n, e, why)
      | inr miss ↦ s.held j (sym (member-add j id members ∙ rw miss refl) ∙ m)
    ];
    pins = s.pins;
    apart = λ j m. elim (Bool-cases (eqb id j)) [
      | inl hit ↦ subst (λ (k : ℕ). get k boundary ≡ none) (==→eq id j hit) out
      | inr miss ↦ s.apart j (sym (member-add j id members ∙ rw miss refl) ∙ m)
    ];
  }
