-- ===== src/Egraph/Build/Reduce.antt =====
-- What the terms of `rule_to_node` (core-rs/src/egraph.rs) denote.
use pgress.Prelude.{◌≡◌, ◌≢◌, refl, sym, ap, ◌∙◌, List, [], ◌∷◌, some, some-inj, map, foldl, nat_eq}
use pgress.Ternary.{T, neg, pos, meet, join, bochvar_add, meet_all, join_any, bochvar_fold_add}
use pgress.Node.{
  ComputeRule, identity, mv_neg_of, mv_add_of, mv_mul_of, mv_sub_of, merge_of, meet_all_of,
  join_any_of, bochvar_fold, power_product, eval,
}
use pgress.Egraph.{Term, PgrsLang, Symbol}
use pgress.Egraph.Rules.{denote}
use pgress.Egraph.Build.{rule_to_node}

-- The folds begin with their first element as well as with the neutral one.
folds-foldl :
    (t : T) (ts : List T)
    → (meet_all (t ∷ ts) ≡ foldl meet t ts)
      × (join_any (t ∷ ts) ≡ foldl join t ts)
      × (bochvar_fold_add (t ∷ ts) ≡ foldl bochvar_add t ts)
unfolding meet_all join_any bochvar_fold_add
folds-foldl t [] = (refl, refl, refl)
folds-foldl t (u ∷ []) = (refl, refl, refl)
folds-foldl t (u ∷ v ∷ []) = (refl, refl, refl)
folds-foldl t (u ∷ v ∷ w ∷ ts) = (
  ap (λ (s : T). foldl meet s (u ∷ v ∷ w ∷ ts)) (unit_meet t),
  ap (λ (s : T). foldl join s (u ∷ v ∷ w ∷ ts)) (unit_join t),
  ap (λ (s : T). foldl bochvar_add s (u ∷ v ∷ w ∷ ts)) (unit_add t),
)
  where
    unit_meet : (s : T) → meet pos s ≡ s
    unit_meet neg = unfold meet in refl
    unit_meet pos = unfold meet in refl
    unit_meet T.zero = unfold meet in refl

    unit_join : (s : T) → join neg s ≡ s
    unit_join neg = unfold join in refl
    unit_join pos = unfold join in refl
    unit_join T.zero = unfold join in refl

    unit_add : (s : T) → bochvar_add neg s ≡ s
    unit_add neg = unfold bochvar_add in refl
    unit_add pos = unfold bochvar_add in refl
    unit_add T.zero = unfold bochvar_add in refl

denote-foldl :
    (env : Symbol → T) (op : PgrsLang → PgrsLang → PgrsLang) (f : T → T → T)
    → ((t u : PgrsLang) → denote env (op t u) ≡ f (denote env t) (denote env u))
    → (e : PgrsLang) (es : List PgrsLang)
    → denote env (foldl op e es) ≡ foldl f (denote env e) (map (denote env) es)
denote-foldl env op f h e [] = refl
denote-foldl env op f h e (e' ∷ es) =
    denote-foldl env op f h (op e e') es ∙ ap (λ t. foldl f t (map (denote env) es)) (h e e')

-- A rule that has a result on what its expressions denote is turned into a term that denotes it; the
-- one exception is a `MeetAll` of nothing, which is pos as a rule and neg as a term.
pub rule_to_node-denote :
    (env : Symbol → T) (rule : ComputeRule) (es : List PgrsLang) (v : T)
    → (rule ≡ meet_all_of → es ≢ [])
    → eval rule (map (denote env) es) ≡ some v
    → denote env (rule_to_node rule es) ≡ v
unfolding rule_to_node eval
rule_to_node-denote env identity [] v some_dep h = cc
rule_to_node-denote env identity (e ∷ es) v some_dep h = unfold denote in some-inj h
rule_to_node-denote env mv_neg_of [] v some_dep h = cc
rule_to_node-denote env mv_neg_of (e ∷ es) v some_dep h = unfold denote in some-inj h
rule_to_node-denote env mv_add_of [] v some_dep h = cc
rule_to_node-denote env mv_add_of (e ∷ []) v some_dep h = cc
rule_to_node-denote env mv_add_of (e ∷ f ∷ es) v some_dep h = unfold denote in some-inj h
rule_to_node-denote env mv_mul_of [] v some_dep h = cc
rule_to_node-denote env mv_mul_of (e ∷ []) v some_dep h = cc
rule_to_node-denote env mv_mul_of (e ∷ f ∷ es) v some_dep h = unfold denote in some-inj h
rule_to_node-denote env mv_sub_of [] v some_dep h = cc
rule_to_node-denote env mv_sub_of (e ∷ []) v some_dep h = cc
rule_to_node-denote env mv_sub_of (e ∷ f ∷ es) v some_dep h = unfold denote in some-inj h
rule_to_node-denote env merge_of [] v some_dep h = cc
rule_to_node-denote env merge_of (e ∷ []) v some_dep h = cc
rule_to_node-denote env merge_of (e ∷ f ∷ []) v some_dep h = cc
rule_to_node-denote env merge_of (e ∷ f ∷ g ∷ es) v some_dep h = unfold denote in some-inj h
rule_to_node-denote env meet_all_of [] v some_dep h = absurd (some_dep refl refl)
rule_to_node-denote env meet_all_of (e ∷ es) v some_dep h =
    denote-foldl env Term.meet_of meet (λ t u. unfold denote in refl) e es
    ∙ sym (folds-foldl (denote env e) (map (denote env) es)).0
    ∙ some-inj h
rule_to_node-denote env join_any_of [] v some_dep h = unfold denote join_any in some-inj h
rule_to_node-denote env join_any_of (e ∷ es) v some_dep h =
    denote-foldl env Term.join_of join (λ t u. unfold denote in refl) e es
    ∙ sym (folds-foldl (denote env e) (map (denote env) es)).1
    ∙ some-inj h
rule_to_node-denote env bochvar_fold [] v some_dep h = unfold denote bochvar_fold_add in some-inj h
rule_to_node-denote env bochvar_fold (e ∷ es) v some_dep h =
    denote-foldl env Term.b_add_of bochvar_add (λ t u. unfold denote in refl) e es
    ∙ sym (folds-foldl (denote env e) (map (denote env) es)).2
    ∙ some-inj h
rule_to_node-denote env power_product [] v some_dep h = cc
rule_to_node-denote env power_product (e ∷ []) v some_dep h = cc
rule_to_node-denote env power_product (e ∷ f ∷ es) v some_dep h = unfold denote in some-inj h
