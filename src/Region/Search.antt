-- ===== src/Region/Search.antt =====
-- The search for a key of the index of core-rs/src/region.rs. Whatever the keys, a position that it
-- gives holds the key; on keys that ascend it finds a key that is there.
use pgress.Prelude.{
  ℕ, zero, suc, ◌+◌, ◌/◌, ◌≤◌, ◌<◌, ◌≡◌, ◌≢◌, inl, inr, arith, true, false, List, [], ◌∷◌, none,
  some, length, get_or, eqb, eqb_iff, Bool-cases, ==→eq, nat_eq,
}
use pgress.Prelude.Sorting.{member, IsSorted, AtLeast}
use pgress.Region.Run.{bisect, binary_search}

bisect-some :
    (fuel col : ℕ) (ks : List ℕ) (lo hi p : ℕ)
    → hi ≤ length ks
    → bisect fuel col ks lo hi ≡ some p
    → (p < length ks) × (get_or ks p 0 ≡ col)
unfolding bisect
bisect-some zero col ks lo hi p h e = cc
bisect-some (suc fuel) col ks lo hi p h e =
    let mid = (lo + hi) / 2 in
    ground (
      arith,
      eqb_iff (get_or ks mid 0) col,
      bisect-some fuel col ks (mid + 1) hi p,
      bisect-some fuel col ks lo mid p,
    )

-- The cells ascend.
abbrev Ascends : List ℕ → Type 0
Ascends ks = (i j : ℕ) → i ≤ j → j < length ks → get_or ks i 0 ≤ get_or ks j 0

bisect-none :
    (fuel col : ℕ) (ks : List ℕ) (lo hi i : ℕ)
    → Ascends ks
    → hi ≤ length ks
    → hi ≤ lo + fuel
    → bisect fuel col ks lo hi ≡ none
    → lo ≤ i
    → i < hi
    → get_or ks i 0 ≢ col
unfolding bisect
bisect-none zero col ks lo hi i up h f e from to = absurd (omega arith)
bisect-none (suc fuel) col ks lo hi i up h f e from to =
    let mid = (lo + hi) / 2 in
    ground (
      arith,
      eqb_iff (get_or ks mid 0) col,
      up i mid,
      up mid i,
      bisect-none fuel col ks (mid + 1) hi i up,
      bisect-none fuel col ks lo mid i up,
    )

AtLeast-get_or : (n : ℕ) (ks : List ℕ) (j : ℕ) → AtLeast n ks → j < length ks → n ≤ get_or ks j 0
AtLeast-get_or n [] j a h = absurd (omega arith)
AtLeast-get_or n (k ∷ ks) zero a h = a.0
AtLeast-get_or n (k ∷ ks) (suc j) a h = AtLeast-get_or n ks j a.1 (omega arith)

IsSorted-Ascends : (ks : List ℕ) → IsSorted ks → Ascends ks
IsSorted-Ascends [] s i j h k = absurd (omega arith)
IsSorted-Ascends (x ∷ ks) s zero zero h k = omega arith
IsSorted-Ascends (x ∷ ks) s zero (suc j) h k = AtLeast-get_or x ks j s.0 (omega arith)
IsSorted-Ascends (x ∷ ks) s (suc i) zero h k = absurd (omega arith)
IsSorted-Ascends (x ∷ ks) s (suc i) (suc j) h k =
    IsSorted-Ascends ks s.1 i j (omega arith) (omega arith)

position_of :
    (col : ℕ) (ks : List ℕ)
    → member col ks ≡ true
    → (i : ℕ) × (i < length ks) × (get_or ks i 0 ≡ col)
unfolding member
position_of col [] m = cc
position_of col (k ∷ ks) m = elim (Bool-cases (eqb k col)) [
  | inl hit ↦ (0, omega arith, ==→eq k col hit)
  | inr miss ↦
      let (i, short, at) = position_of col ks (ground (arith, m, miss)) in
      (suc i, omega (arith, short), at)
]

-- The search gives a position of the key.
pub binary_search-some :
    (col : ℕ) (ks : List ℕ) (p : ℕ)
    → binary_search col ks ≡ some p
    → (p < length ks) × (get_or ks p 0 ≡ col)
unfolding binary_search
binary_search-some col ks p e = bisect-some (length ks) col ks 0 (length ks) p (omega arith) e

-- On sorted keys the search fails only if the key is not there.
pub binary_search-none :
    (col : ℕ) (ks : List ℕ) → IsSorted ks → binary_search col ks ≡ none → member col ks ≡ false
unfolding binary_search
binary_search-none col ks sorted e = elim (Bool-cases (member col ks)) [
  | inr out ↦ out
  | inl inside ↦
      let (i, short, at) = position_of col ks inside in
      absurd (
        bisect-none (length ks) col ks 0 (length ks) i (IsSorted-Ascends ks sorted) (omega arith)
          (omega arith) e (omega arith) short at)
]
