-- ===== src/Ternary/Fold.antt =====
-- The slice folds of ternary.rs and `propagation_state`, with their fast paths for short slices,
-- against descriptions by how often each value occurs.
use pgress.Prelude.{
  ℕ, ◌+◌, ◌≡◌, refl, ◌∙◌, arith, Bool, true, false, List, [], ◌∷◌, ◌++◌, length, foldl, ltb, eqb,
  if◌then◌else◌,
}
use pgress.Ternary.{
  T, neg, pos, same, meet, join, bochvar_add, meet_all, join_any, bochvar_fold_add, PropState,
  ready, pending, conflicted, scan_state, propagation_state,
}

abbrev pub one_if : Bool → ℕ
one_if true = 1
one_if false = 0

-- How often a value occurs.
abbrev pub count : T → List T → ℕ
count t [] = 0
count t (x ∷ xs) = one_if (same x t) + count t xs

pub count-sum : (vals : List T) → count neg vals + count pos vals + count T.zero vals ≡ length vals
count-sum [] = refl
count-sum (neg ∷ vals) = omega (arith, count-sum vals)
count-sum (pos ∷ vals) = omega (arith, count-sum vals)
count-sum (T.zero ∷ vals) = omega (arith, count-sum vals)

pub count-append : (t : T) (xs ys : List T) → count t (xs ++ ys) ≡ count t xs + count t ys
count-append t [] ys = omega arith
count-append t (x ∷ xs) ys = omega (arith, count-append t xs ys)

-- Zero first, then neg, then pos.
abbrev pub state_by_counts : List T → PropState
state_by_counts vals =
    if ltb 0 (count T.zero vals)
    then conflicted
    else if ltb 0 (count neg vals)
    then pending
    else ready

abbrev pub meet_by_counts : List T → T
meet_by_counts vals =
    if ltb 0 (count neg vals) then neg else if ltb 0 (count T.zero vals) then T.zero else pos

abbrev pub join_by_counts : List T → T
join_by_counts vals =
    if ltb 0 (count pos vals) then pos else if ltb 0 (count T.zero vals) then T.zero else neg

abbrev pub infected_by_counts : List T → T
infected_by_counts vals =
    if ltb 0 (count T.zero vals) then T.zero else if ltb 0 (count pos vals) then pos else neg

foldl-meet : (a : T) (vals : List T) → foldl meet a vals ≡ meet a (meet_by_counts vals)
unfolding meet
foldl-meet neg [] = refl
foldl-meet pos [] = refl
foldl-meet T.zero [] = refl
foldl-meet a (v ∷ vals) = ground (arith, foldl-meet (meet a v) vals)

foldl-join : (a : T) (vals : List T) → foldl join a vals ≡ join a (join_by_counts vals)
unfolding join
foldl-join neg [] = refl
foldl-join pos [] = refl
foldl-join T.zero [] = refl
foldl-join a (v ∷ vals) = ground (arith, foldl-join (join a v) vals)

foldl-bochvar_add :
    (a : T) (vals : List T) → foldl bochvar_add a vals ≡ bochvar_add a (infected_by_counts vals)
unfolding bochvar_add
foldl-bochvar_add neg [] = refl
foldl-bochvar_add pos [] = refl
foldl-bochvar_add T.zero [] = refl
foldl-bochvar_add a (v ∷ vals) = ground (arith, foldl-bochvar_add (bochvar_add a v) vals)

meet_all-foldl : (vals : List T) → meet_all vals ≡ foldl meet pos vals
unfolding meet_all
meet_all-foldl [] = refl
meet_all-foldl (a ∷ []) = ground arith
meet_all-foldl (a ∷ b ∷ []) = ground arith
meet_all-foldl (a ∷ b ∷ c ∷ []) = ground arith
meet_all-foldl (a ∷ b ∷ c ∷ d ∷ vals) = refl

join_any-foldl : (vals : List T) → join_any vals ≡ foldl join neg vals
unfolding join_any
join_any-foldl [] = refl
join_any-foldl (a ∷ []) = ground arith
join_any-foldl (a ∷ b ∷ []) = ground arith
join_any-foldl (a ∷ b ∷ c ∷ []) = ground arith
join_any-foldl (a ∷ b ∷ c ∷ d ∷ vals) = refl

bochvar_fold_add-foldl : (vals : List T) → bochvar_fold_add vals ≡ foldl bochvar_add neg vals
unfolding bochvar_fold_add
bochvar_fold_add-foldl [] = refl
bochvar_fold_add-foldl (a ∷ []) = ground arith
bochvar_fold_add-foldl (a ∷ b ∷ []) = ground arith
bochvar_fold_add-foldl (a ∷ b ∷ c ∷ []) = ground arith
bochvar_fold_add-foldl (a ∷ b ∷ c ∷ d ∷ vals) = refl

-- On slices of every length, the fast paths included, `meet_all` is the least value present
-- (pos if there is none), `join_any` the greatest (neg if there is none), and `bochvar_fold_add`
-- is zero as soon as a zero occurs, and otherwise the greatest (neg if there is none).
pub folds_by_counts :
    (vals : List T)
    → (meet_all vals ≡ meet_by_counts vals)
      × (join_any vals ≡ join_by_counts vals)
      × (bochvar_fold_add vals ≡ infected_by_counts vals)
unfolding meet join bochvar_add
folds_by_counts vals = (
  meet_all-foldl vals ∙ foldl-meet pos vals ∙ ground arith,
  join_any-foldl vals ∙ foldl-join neg vals ∙ ground arith,
  bochvar_fold_add-foldl vals ∙ foldl-bochvar_add neg vals ∙ ground arith,
)

scan_state_lem :
    (n k : ℕ) (vals : List T)
    → scan_state n k vals ≡ (
        if ltb 0 (count T.zero vals)
        then conflicted
        else if eqb (k + count pos vals) n
        then ready
        else pending)
unfolding scan_state
scan_state_lem n k [] = ground arith
scan_state_lem n k (neg ∷ vals) = ground (arith, scan_state_lem n k vals)
scan_state_lem n k (pos ∷ vals) = ground (arith, scan_state_lem n (k + 1) vals)
scan_state_lem n k (T.zero ∷ vals) = ground arith

-- The dependency state on slices of every length, the fast paths and the early exit included:
-- conflicted exactly when a zero occurs, otherwise pending exactly when a neg occurs, otherwise
-- ready.
pub propagation_state-by_counts : (vals : List T) → propagation_state vals ≡ state_by_counts vals
unfolding propagation_state
propagation_state-by_counts [] = refl
propagation_state-by_counts (neg ∷ []) = refl
propagation_state-by_counts (pos ∷ []) = refl
propagation_state-by_counts (T.zero ∷ []) = refl
propagation_state-by_counts (a ∷ b ∷ []) = ground arith
propagation_state-by_counts (a ∷ b ∷ c ∷ vals) =
    scan_state_lem _ 0 (a ∷ b ∷ c ∷ vals) ∙ ground (arith, count-sum (a ∷ b ∷ c ∷ vals))
