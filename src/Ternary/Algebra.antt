-- ===== src/Ternary/Algebra.antt =====
-- The operations against the shifted arithmetic of the module's comments, on the scale 0, 1, 2 that
-- stands for {0, ½, 1}, and the laws of an MV-algebra with its lattice.
use pgress.Prelude.{ℕ, ◌+◌, ◌-◌, ◌≤◌, min, max, ◌≡◌, refl, arith, true}
use pgress.Ternary.{
  T, neg, pos, same, mv_neg, mv_add, mv_mul, mv_sub, mv_impl, meet, join, median, merge,
  bochvar_add, bochvar_mul, bochvar_meet,
}

-- The place of a value on the chain, in halves.
abbrev pub level : T → ℕ
level neg = 0
level T.zero = 1
level pos = 2

pub level-inj : (x y : T) → level x ≡ level y → x ≡ y
level-inj x y h = ground arith

pub same→eq : (x y : T) → same x y ≡ true → x ≡ y
same→eq x y h = ground arith

pub same_refl : (x : T) → same x x ≡ true
same_refl neg = refl
same_refl pos = refl
same_refl T.zero = refl

-- With the levels 0, 1 and 2 of neg, zero and pos: negation is the difference from 2, the sum is cut
-- off at 2, the product is the sum less 2, the bounded difference is the difference, both cut off at
-- 0, and the implication is the sum of the negation and the second level, cut off at 2.
mv_arithmetic :
    (x y : T)
    → (level (mv_neg x) ≡ 2 - level x)
      × (level (mv_add x y) ≡ min 2 (level x + level y))
      × (level (mv_mul x y) ≡ level x + level y - 2)
      × (level (mv_sub x y) ≡ level x - level y)
      × (level (mv_impl x y) ≡ min 2 (2 - level x + level y))
unfolding mv_neg mv_add mv_mul mv_sub mv_impl
mv_arithmetic neg neg = (refl, refl, refl, refl, refl)
mv_arithmetic neg pos = (refl, refl, refl, refl, refl)
mv_arithmetic neg T.zero = (refl, refl, refl, refl, refl)
mv_arithmetic pos neg = (refl, refl, refl, refl, refl)
mv_arithmetic pos pos = (refl, refl, refl, refl, refl)
mv_arithmetic pos T.zero = (refl, refl, refl, refl, refl)
mv_arithmetic T.zero neg = (refl, refl, refl, refl, refl)
mv_arithmetic T.zero pos = (refl, refl, refl, refl, refl)
mv_arithmetic T.zero T.zero = (refl, refl, refl, refl, refl)

pub lattice_arithmetic :
    (x y : T)
    → (level (meet x y) ≡ min (level x) (level y)) × (level (join x y) ≡ max (level x) (level y))
unfolding meet join
lattice_arithmetic neg neg = (refl, refl)
lattice_arithmetic neg pos = (refl, refl)
lattice_arithmetic neg T.zero = (refl, refl)
lattice_arithmetic pos neg = (refl, refl)
lattice_arithmetic pos pos = (refl, refl)
lattice_arithmetic pos T.zero = (refl, refl)
lattice_arithmetic T.zero neg = (refl, refl)
lattice_arithmetic T.zero pos = (refl, refl)
lattice_arithmetic T.zero T.zero = (refl, refl)

-- The Łukasiewicz axiom of MV-algebras, with the commutative monoid, the involution and the top.
pub mv_algebra :
    (x y z : T)
    → (mv_add x (mv_add y z) ≡ mv_add (mv_add x y) z)
      × (mv_add x y ≡ mv_add y x)
      × (mv_add x neg ≡ x)
      × (mv_neg (mv_neg x) ≡ x)
      × (mv_add x pos ≡ pos)
      × (mv_add (mv_neg (mv_add (mv_neg x) y)) y ≡ mv_add (mv_neg (mv_add (mv_neg y) x)) x)
unfolding mv_add mv_neg
mv_algebra x y z = ground arith

-- The lattice and the product are the ones that the sum and the negation define.
pub derived_operations :
    (x y : T)
    → (join x y ≡ mv_add (mv_sub x y) y)
      × (meet x y ≡ mv_mul x (mv_impl x y))
      × (mv_mul x y ≡ mv_neg (mv_add (mv_neg x) (mv_neg y)))
unfolding mv_add mv_neg mv_mul mv_sub mv_impl meet join
derived_operations x y = ground arith

-- `merge` is a three-way merge: equal sides win, a side that kept the base keeps it, the sides
-- may be exchanged, and the result lies between the least and the greatest of the three.
merge_laws :
    (base x y : T)
    → (merge base x x ≡ x)
      × (merge base base x ≡ base)
      × (merge base x y ≡ merge base y x)
      × (min (level x) (level y) ≤ level (merge base x y))
      × (level (merge base x y) ≤ max (level x) (level y))
unfolding merge median meet join
merge_laws base x y = ground arith

-- The three Bochvar operations are infected by `zero` on either side.
pub bochvar_infects :
    (x : T)
    → (bochvar_add x T.zero ≡ T.zero)
      × (bochvar_add T.zero x ≡ T.zero)
      × (bochvar_mul x T.zero ≡ T.zero)
      × (bochvar_mul T.zero x ≡ T.zero)
      × (bochvar_meet x T.zero ≡ T.zero)
      × (bochvar_meet T.zero x ≡ T.zero)
unfolding bochvar_add bochvar_mul bochvar_meet
bochvar_infects x = ground arith
