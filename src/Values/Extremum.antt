-- ===== src/Values/Extremum.antt =====
-- What a range operation computes, said without words or loops: the first value that the order of
-- the scan prefers, zero if only that occurs, and the last value otherwise.
use pgress.Prelude.{
  ℕ, zero, suc, ◌+◌, ◌-◌, ◌≤◌, ◌<◌, ◌≡◌, ◌≢◌, refl, sym, ◌∙◌, inl, inr, arith, List, [], ◌∷◌,
  length, get_or, take, drop, ltb, if◌then◌else◌, Bool-cases,
}
use pgress.Ternary.{T, neg, pos, same}
use pgress.Ternary.Fold.{count, meet_by_counts, join_by_counts}

-- `o` is the extremum of `f` over the places that satisfy `In`.
pub data IsExtremum (first last : T) (f : ℕ → T) (In : ℕ → Type 0) (o : T) : Type 0 where
  found : (d : ℕ) → In d → f d ≡ first → o ≡ first → IsExtremum first last f In o
  mixed :
      (d : ℕ)
      → In d
      → f d ≡ T.zero
      → ((e : ℕ) → In e → f e ≢ first)
      → o ≡ T.zero
      → IsExtremum first last f In o
  clear :
      ((e : ℕ) → In e → (f e ≢ first) × (f e ≢ T.zero)) → o ≡ last → IsExtremum first last f In o

pub IsExtremum-unique :
    (first last : T) (f : ℕ → T) (In : ℕ → Type 0) (x y : T)
    → IsExtremum first last f In x
    → IsExtremum first last f In y
    → x ≡ y
IsExtremum-unique first last f In x y (found d i p e) (found d' i' p' e') = cc
IsExtremum-unique first last f In x y (found d i p e) (mixed d' i' p' n' e') = absurd (n' d i p)
IsExtremum-unique first last f In x y (found d i p e) (clear n' e') = absurd ((n' d i).0 p)
IsExtremum-unique first last f In x y (mixed d i p n e) (found d' i' p' e') = absurd (n d' i' p')
IsExtremum-unique first last f In x y (mixed d i p n e) (mixed d' i' p' n' e') = cc
IsExtremum-unique first last f In x y (mixed d i p n e) (clear n' e') = absurd ((n' d i).1 p)
IsExtremum-unique first last f In x y (clear n e) (found d' i' p' e') = absurd ((n d' i').0 p')
IsExtremum-unique first last f In x y (clear n e) (mixed d' i' p' n' e') = absurd ((n d' i').1 p')
IsExtremum-unique first last f In x y (clear n e) (clear n' e') = cc

pub IsExtremum-map :
    (first last : T) (f g : ℕ → T) (In Jn : ℕ → Type 0) (o : T) (to back : ℕ → ℕ)
    → ((d : ℕ) → In d → Jn (to d) × (g (to d) ≡ f d))
    → ((d : ℕ) → Jn d → In (back d) × (f (back d) ≡ g d))
    → IsExtremum first last f In o
    → IsExtremum first last g Jn o
IsExtremum-map first last f g In Jn o to back there here (found d i p e) =
    found (to d) (there d i).0 ((there d i).1 ∙ p) e
IsExtremum-map first last f g In Jn o to back there here (mixed d i p n e) =
    mixed (to d) (there d i).0 ((there d i).1 ∙ p)
      (λ c j q. n (back c) (here c j).0 ((here c j).1 ∙ q)) e
IsExtremum-map first last f g In Jn o to back there here (clear n e) =
    clear
      (λ c j. (
        λ q. (n (back c) (here c j).0).0 ((here c j).1 ∙ q),
        λ q. (n (back c) (here c j).0).1 ((here c j).1 ∙ q),
      ))
      e

-- A list holds a value exactly if it counts.
count_found :
    (t : T) (xs : List T) → 0 < count t xs → (d : ℕ) × (d < length xs) × (get_or xs d neg ≡ t)
count_found t [] h = absurd (omega arith)
count_found t (x ∷ xs) h = elim (Bool-cases (same x t)) [
  | inl hit ↦ (0, omega arith, ground arith)
  | inr miss ↦ let (d, b, e) = count_found t xs (ground arith) in (suc d, omega arith, e)
]

count_none : (t : T) (xs : List T) (d : ℕ) → count t xs ≡ 0 → d < length xs → get_or xs d neg ≢ t
count_none t [] d h b e = absurd (omega arith)
count_none t (x ∷ xs) zero h b e = ground arith
count_none t (x ∷ xs) (suc d) h b e = count_none t xs d (omega arith) (omega arith) e

-- `first` counts, or else zero, or else neither.
by_counts-IsExtremum :
    (first last : T) (xs : List T)
    → IsExtremum first last
        (λ d. get_or xs d neg)
        (λ d. d < length xs)
        (if ltb 0 (count first xs) then first else if ltb 0 (count T.zero xs) then T.zero else last)
by_counts-IsExtremum first last xs = elim (Bool-cases (ltb 0 (count first xs))) [
  | inl some_first ↦
      let (d, b, e) = count_found first xs (ground arith) in rw some_first (found d b e refl)
  | inr no_first ↦ rw no_first (elim (Bool-cases (ltb 0 (count T.zero xs))) [
    | inl some_zero ↦
        let (d, b, e) = count_found T.zero xs (ground arith) in
        rw some_zero (mixed d b e (λ c q. count_none first xs c (ground arith) q) refl)
    | inr no_zero ↦ rw no_zero (
        clear
          (λ c q. (count_none first xs c (ground arith) q, count_none T.zero xs c (ground arith) q))
          refl)
  ])
]

get_or-drop : (n : ℕ) (xs : List T) (i : ℕ) → get_or (drop n xs) i neg ≡ get_or xs (n + i) neg
get_or-drop zero xs i = let e : 0 + i ≡ i = omega arith in rw e
get_or-drop (suc n) [] i = refl
get_or-drop (suc n) (x ∷ xs) i =
    let e : suc n + i ≡ suc (n + i) = omega arith in rw e (get_or-drop n xs i)

get_or-take : (n : ℕ) (xs : List T) (i : ℕ) → i < n → get_or (take n xs) i neg ≡ get_or xs i neg
get_or-take zero xs i h = absurd (omega arith)
get_or-take (suc n) [] i h = refl
get_or-take (suc n) (x ∷ xs) zero h = refl
get_or-take (suc n) (x ∷ xs) (suc i) h = get_or-take n xs i (omega arith)

length-slice : (s n : ℕ) (xs : List T) → s + n ≤ length xs → length (take n (drop s xs)) ≡ n
length-slice s zero xs h = refl
length-slice zero (suc n) [] h = absurd (omega arith)
length-slice zero (suc n) (x ∷ xs) h = omega (arith, length-slice zero n xs (omega arith))
length-slice (suc s) (suc n) [] h = absurd (omega arith)
length-slice (suc s) (suc n) (x ∷ xs) h = length-slice s (suc n) xs (omega arith)

-- The slots from `s` up to `e`.
abbrev pub Range : ℕ → ℕ → ℕ → Type 0
Range s e d = (s ≤ d) × (d < e)

-- The extremum of a slice of the cache, by its slots.
slice-IsExtremum :
    (first last : T) (xs : List T) (s n : ℕ)
    → s + n ≤ length xs
    → let ys = take n (drop s xs) in
      IsExtremum first last
        (λ d. get_or xs d neg)
        (Range s (s + n))
        (if ltb 0 (count first ys) then first else if ltb 0 (count T.zero ys) then T.zero else last)
slice-IsExtremum first last xs s n h =
    let ys = take n (drop s xs) in
    let size : length ys ≡ n = length-slice s n xs h in
    IsExtremum-map first last (λ d. get_or ys d neg) (λ d. get_or xs d neg) (λ d. d < length ys)
      (Range s (s + n)) _ (λ d. s + d) (λ d. d - s)
      (λ d i. (
        (omega arith, omega arith),
        sym (get_or-take n (drop s xs) d (omega arith) ∙ get_or-drop s xs d),
      ))
      (λ d i.
        let back : s + (d - s) ≡ d = omega arith in
        (
          omega arith,
          get_or-take n (drop s xs) (d - s) (omega arith) ∙ get_or-drop s xs (d - s) ∙ rw back,
        ))
      (by_counts-IsExtremum first last ys)

pub meet_slice-IsExtremum :
    (xs : List T) (s n : ℕ)
    → s + n ≤ length xs
    → IsExtremum neg pos
        (λ d. get_or xs d neg)
        (Range s (s + n))
        (meet_by_counts (take n (drop s xs)))
meet_slice-IsExtremum = slice-IsExtremum neg pos

pub join_slice-IsExtremum :
    (xs : List T) (s n : ℕ)
    → s + n ≤ length xs
    → IsExtremum pos neg
        (λ d. get_or xs d neg)
        (Range s (s + n))
        (join_by_counts (take n (drop s xs)))
join_slice-IsExtremum = slice-IsExtremum pos neg
