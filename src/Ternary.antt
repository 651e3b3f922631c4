-- ===== src/Ternary.antt =====
-- The ternary domain of core-rs/src/ternary.rs: `T`, its MV-algebra, lattice and Bochvar operations,
-- the slice folds with their fast paths, and `PropState`. The discriminants are neg = 0, pos = 1,
-- zero = 2, while the chain order is neg < zero < pos.
pub mod Algebra
pub mod Fold
use pgress.Prelude.{
  ℕ, ◌+◌, Bool, true, false, List, [], ◌∷◌, length, foldl, eqb, if◌then◌else◌, ◌&&◌, ◌||◌,
}

pub data T : Type 0 where
  neg pos zero : T

-- `v as u8`.
abbrev pub repr : T → ℕ
repr neg = 0
repr pos = 1
repr zero = 2

-- The derived `PartialEq`.
abbrev pub same : T → T → Bool
same neg neg = true
same pos pos = true
same zero zero = true
same _ _ = false

unfoldable pub mv_neg : T → T
mv_neg neg = pos
mv_neg zero = zero
mv_neg pos = neg

unfoldable pub mv_add : T → T → T
mv_add neg neg = neg
mv_add neg zero = zero
mv_add neg pos = pos
mv_add zero neg = zero
mv_add zero zero = pos
mv_add zero pos = pos
mv_add pos neg = pos
mv_add pos zero = pos
mv_add pos pos = pos

unfoldable pub mv_mul : T → T → T
mv_mul pos pos = pos
mv_mul pos zero = zero
mv_mul pos neg = neg
mv_mul zero pos = zero
mv_mul zero zero = neg
mv_mul zero neg = neg
mv_mul neg pos = neg
mv_mul neg zero = neg
mv_mul neg neg = neg

unfoldable pub mv_sub : T → T → T
unfolding mv_neg mv_add
mv_sub x y = mv_neg (mv_add (mv_neg x) y)

unfoldable pub mv_impl : T → T → T
unfolding mv_neg mv_add
mv_impl x y = mv_add (mv_neg x) y

unfoldable pub meet : T → T → T
meet neg _ = neg
meet _ neg = neg
meet zero _ = zero
meet _ zero = zero
meet _ _ = pos

unfoldable pub join : T → T → T
join pos _ = pos
join _ pos = pos
join zero _ = zero
join _ zero = zero
join _ _ = neg

unfoldable pub median : T → T → T → T
unfolding meet join
median a b c = join (meet a b) (join (meet b c) (meet a c))

unfoldable pub merge : T → T → T → T
unfolding median
merge base left right = median base left right

unfoldable pub bochvar_add : T → T → T
unfolding mv_add
bochvar_add zero _ = zero
bochvar_add _ zero = zero
bochvar_add x y = mv_add x y

unfoldable pub bochvar_mul : T → T → T
unfolding mv_mul
bochvar_mul zero _ = zero
bochvar_mul _ zero = zero
bochvar_mul x y = mv_mul x y

unfoldable pub bochvar_meet : T → T → T
unfolding meet
bochvar_meet zero _ = zero
bochvar_meet _ zero = zero
bochvar_meet x y = meet x y

abbrev pub is_ready : T → Bool
is_ready pos = true
is_ready _ = false

abbrev pub is_conflicted : T → Bool
is_conflicted zero = true
is_conflicted _ = false

abbrev pub is_pending : T → Bool
is_pending neg = true
is_pending _ = false

unfoldable pub bochvar_fold_add : List T → T
unfolding bochvar_add
bochvar_fold_add [] = neg
bochvar_fold_add (a ∷ []) = a
bochvar_fold_add (a ∷ b ∷ []) = bochvar_add a b
bochvar_fold_add (a ∷ b ∷ c ∷ []) = bochvar_add (bochvar_add a b) c
bochvar_fold_add (a ∷ b ∷ c ∷ d ∷ vals) = foldl bochvar_add neg (a ∷ b ∷ c ∷ d ∷ vals)

unfoldable pub meet_all : List T → T
unfolding meet
meet_all [] = pos
meet_all (a ∷ []) = a
meet_all (a ∷ b ∷ []) = meet a b
meet_all (a ∷ b ∷ c ∷ []) = meet (meet a b) c
meet_all (a ∷ b ∷ c ∷ d ∷ vals) = foldl meet pos (a ∷ b ∷ c ∷ d ∷ vals)

unfoldable pub join_any : List T → T
unfolding join
join_any [] = neg
join_any (a ∷ []) = a
join_any (a ∷ b ∷ []) = join a b
join_any (a ∷ b ∷ c ∷ []) = join (join a b) c
join_any (a ∷ b ∷ c ∷ d ∷ vals) = foldl join neg (a ∷ b ∷ c ∷ d ∷ vals)

pub data PropState : Type 0 where
  ready pending conflicted : PropState

-- The loop for three or more values, with its early exit; `n` is the length of the whole slice.
-- `n_pos` is a u32 that counts elements of a slice, at most its length, so it stays unbounded.
unfoldable pub scan_state : ℕ → ℕ → List T → PropState
scan_state n n_pos [] = if eqb n_pos n then ready else pending
scan_state n n_pos (zero ∷ vals) = conflicted
scan_state n n_pos (pos ∷ vals) = scan_state n (n_pos + 1) vals
scan_state n n_pos (neg ∷ vals) = scan_state n n_pos vals

unfoldable pub propagation_state : List T → PropState
unfolding scan_state
propagation_state [] = ready
propagation_state (zero ∷ []) = conflicted
propagation_state (pos ∷ []) = ready
propagation_state (neg ∷ []) = pending
propagation_state (a ∷ b ∷ []) =
    if is_conflicted a || is_conflicted b
    then conflicted
    else if is_ready a && is_ready b
    then ready
    else pending
propagation_state (a ∷ b ∷ c ∷ vals) = scan_state (length (a ∷ b ∷ c ∷ vals)) 0 (a ∷ b ∷ c ∷ vals)
