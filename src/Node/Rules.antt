-- ===== src/Node/Rules.antt =====
-- The compute rules of node.rs.
use pgress.Prelude.{
  ℕ, ◌≡◌, refl, ◌↔◌, ◌<◌, arith, false, List, [], ◌∷◌, none, some, length, inl, inr, Bool-cases,
  Option-cases, some-inj,
}
use pgress.Ternary.{T, same}
use pgress.Node.{
  ComputeRule, identity, mv_neg_of, mv_add_of, mv_mul_of, mv_sub_of, merge_of, meet_all_of,
  join_any_of, bochvar_fold, power_product, eval, diff,
}

-- How many dependencies a rule reads at least.
abbrev pub arity : ComputeRule → ℕ
arity identity = 1
arity mv_neg_of = 1
arity mv_add_of = 2
arity mv_mul_of = 2
arity mv_sub_of = 2
arity merge_of = 3
arity meet_all_of = 0
arity join_any_of = 0
arity bochvar_fold = 0
arity power_product = 2

-- A rule has no result exactly if it is given fewer dependencies than it reads.
pub eval-arity :
    (rule : ComputeRule) (vals : List T) → (eval rule vals ≡ none) ↔ (length vals < arity rule)
unfolding eval
eval-arity identity [] = ground arith
eval-arity identity (a ∷ vals) = ground arith
eval-arity mv_neg_of [] = ground arith
eval-arity mv_neg_of (a ∷ vals) = ground arith
eval-arity mv_add_of [] = ground arith
eval-arity mv_add_of (a ∷ []) = ground arith
eval-arity mv_add_of (a ∷ b ∷ vals) = ground arith
eval-arity mv_mul_of [] = ground arith
eval-arity mv_mul_of (a ∷ []) = ground arith
eval-arity mv_mul_of (a ∷ b ∷ vals) = ground arith
eval-arity mv_sub_of [] = ground arith
eval-arity mv_sub_of (a ∷ []) = ground arith
eval-arity mv_sub_of (a ∷ b ∷ vals) = ground arith
eval-arity merge_of [] = ground arith
eval-arity merge_of (a ∷ []) = ground arith
eval-arity merge_of (a ∷ b ∷ []) = ground arith
eval-arity merge_of (a ∷ b ∷ c ∷ vals) = ground arith
eval-arity meet_all_of vals = ground arith
eval-arity join_any_of vals = ground arith
eval-arity bochvar_fold vals = ground arith
eval-arity power_product [] = ground arith
eval-arity power_product (a ∷ []) = ground arith
eval-arity power_product (a ∷ b ∷ vals) = ground arith

-- A difference is there exactly if both lists have a result and the two results differ, and it is
-- the new one.
diff_iff :
    (rule : ComputeRule) (old_vals new_vals : List T) (v : T)
    → (diff rule old_vals new_vals ≡ some v) ↔ (
        (old : T) × (eval rule old_vals ≡ some old)
        × (eval rule new_vals ≡ some v)
        × (same v old ≡ false))
unfolding diff
diff_iff rule old_vals new_vals v = elim (Option-cases (eval rule old_vals)) [
  | inl e ↦ rw e (ground arith)
  | inr (a, e) ↦ elim (Option-cases (eval rule new_vals)) [
    | inl f ↦ rw (e, f) (ground arith)
    | inr (b, f) ↦ elim (Bool-cases (same b a)) [
      | inl s ↦
          rw (e, f, s)
            ((λ h. ground arith), λ (old, p, q, r). ground (arith, some-inj p, some-inj q))
      | inr s ↦ rw (e, f, s) ((λ h. (a, refl, h, ground (arith, some-inj h))), λ (old, p, q, r). q)
    ]
  ]
]
