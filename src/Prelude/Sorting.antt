-- ===== src/Prelude/Sorting.antt =====
-- `sort_unstable` on a vector of ids, and the sets of ids that are collected into such vectors.
use pgress.Prelude.{
  ℕ, ◌≤◌, ◌≡◌, refl, ◌∙◌, arith, Bool, false, ◌||◌, ◌++◌, List, [], ◌∷◌, leb, eqb, eqb_iff,
  if◌then◌else◌,
}

unfoldable pub insert_sorted : ℕ → List ℕ → List ℕ
insert_sorted x [] = x ∷ []
insert_sorted x (y ∷ ys) = if leb x y then x ∷ y ∷ ys else y ∷ insert_sorted x ys

unfoldable pub sort : List ℕ → List ℕ
unfolding insert_sorted
sort [] = []
sort (x ∷ xs) = insert_sorted x (sort xs)

unfoldable pub member : ℕ → List ℕ → Bool
member a [] = false
member a (x ∷ xs) = eqb x a || member a xs

-- `HashSet::insert`.
unfoldable pub add : ℕ → List ℕ → List ℕ
unfolding member
add a xs = if member a xs then xs else a ∷ xs

-- `HashSet::remove`.
unfoldable pub discard : ℕ → List ℕ → List ℕ
discard a [] = []
discard a (x ∷ xs) = if eqb x a then discard a xs else x ∷ discard a xs

abbrev pub AtLeast : ℕ → List ℕ → Type 0
AtLeast n [] = Unit {0}
AtLeast n (x ∷ xs) = (n ≤ x) × AtLeast n xs

abbrev pub IsSorted : List ℕ → Type 0
IsSorted [] = Unit {0}
IsSorted (x ∷ xs) = AtLeast x xs × IsSorted xs

AtLeast-mono : {m n : ℕ} (xs : List ℕ) → m ≤ n → AtLeast n xs → AtLeast m xs
AtLeast-mono [] h a = tt
AtLeast-mono (x ∷ xs) h a = (omega arith, AtLeast-mono xs h a.1)

AtLeast-insert_sorted :
    (n x : ℕ) (xs : List ℕ) → n ≤ x → AtLeast n xs → AtLeast n (insert_sorted x xs)
unfolding insert_sorted
AtLeast-insert_sorted n x [] h a = (h, tt)
AtLeast-insert_sorted n x (y ∷ ys) h a = ground (arith, AtLeast-insert_sorted n x ys h a.1)

IsSorted-insert_sorted : (x : ℕ) (xs : List ℕ) → IsSorted xs → IsSorted (insert_sorted x xs)
unfolding insert_sorted
IsSorted-insert_sorted x [] s = (tt, tt)
IsSorted-insert_sorted x (y ∷ ys) s = ground (
  arith,
  AtLeast-mono {m = x} {n = y} ys,
  AtLeast-insert_sorted y x ys,
  IsSorted-insert_sorted x ys s.1,
)

pub sort-IsSorted : (xs : List ℕ) → IsSorted (sort xs)
unfolding sort
sort-IsSorted [] = tt
sort-IsSorted (x ∷ xs) = IsSorted-insert_sorted x (sort xs) (sort-IsSorted xs)

member-insert_sorted :
    (a x : ℕ) (xs : List ℕ) → member a (insert_sorted x xs) ≡ (eqb x a || member a xs)
unfolding member insert_sorted
member-insert_sorted a x [] = refl
member-insert_sorted a x (y ∷ ys) = ground (arith, member-insert_sorted a x ys)

pub member-sort : (a : ℕ) (xs : List ℕ) → member a (sort xs) ≡ member a xs
unfolding member sort
member-sort a [] = refl
member-sort a (x ∷ xs) = member-insert_sorted a x (sort xs) ∙ ground (arith, member-sort a xs)

pub member-add : (a b : ℕ) (xs : List ℕ) → member a (add b xs) ≡ (eqb b a || member a xs)
unfolding add member
member-add a b xs = ground (arith, eqb_iff b a)

pub member-discard :
    (a b : ℕ) (xs : List ℕ) → member a (discard b xs) ≡ (if eqb b a then false else member a xs)
unfolding discard member
member-discard a b [] = ground arith
member-discard a b (x ∷ xs) = ground (arith, member-discard a b xs)

pub member-append : (a : ℕ) (xs ys : List ℕ) → member a (xs ++ ys) ≡ (member a xs || member a ys)
unfolding member
member-append a [] ys = refl
member-append a (x ∷ xs) ys = ground (arith, member-append a xs ys)
