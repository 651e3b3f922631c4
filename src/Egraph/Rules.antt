-- ===== src/Egraph/Rules.antt =====
-- What the rewrite rules of core-rs/src/egraph.rs mean: a term denotes a value once its names do.
use pgress.Prelude.{
  ◌≡◌, refl, sym, subst, ap, ap₂, ◌∙◌, List, [], ◌∷◌, Option, none, some, All, Any, here, there,
  inl, inr, arith, Option-cases, some-inj,
}
use pgress.Ternary.{
  T, neg, pos, mv_neg, mv_add, mv_mul, mv_sub, meet, join, merge, median, bochvar_add,
}
use pgress.Egraph.{
  Term, lit_neg, lit_zero, lit_pos, mv_neg_of, mv_add_of, mv_mul_of, mv_sub_of, meet_of, join_of,
  merge_of, b_add_of, symbol, PgrsLang, Symbol, constant, zip, on_pair, Var, Rewrite, pgrs_rules,
}

unfoldable pub denote : {S : Type 0} → (S → T) → Term S → T
denote env lit_neg = neg
denote env lit_zero = T.zero
denote env lit_pos = pos
denote env (mv_neg_of t) = mv_neg (denote env t)
denote env (mv_add_of t u) = mv_add (denote env t) (denote env u)
denote env (mv_mul_of t u) = mv_mul (denote env t) (denote env u)
denote env (mv_sub_of t u) = mv_sub (denote env t) (denote env u)
denote env (meet_of t u) = meet (denote env t) (denote env u)
denote env (join_of t u) = join (denote env t) (denote env u)
denote env (merge_of t u w) = merge (denote env t) (denote env u) (denote env w)
denote env (b_add_of t u) = bochvar_add (denote env t) (denote env u)
denote env (symbol s) = env s

abbrev pub IsSound : Rewrite → Type 0
IsSound rule = (env : Var → T) → denote env rule.lhs ≡ denote env rule.rhs

-- Every rewrite rule is sound: both of its sides have the same value, whatever its variables stand
-- for.
pub pgrs_rules-IsSound : All IsSound pgrs_rules
unfolding denote mv_neg mv_add mv_mul bochvar_add meet join merge median
pgrs_rules-IsSound = (
  λ env. ground arith,
  (
    λ env. ground arith,
    (
      λ env. ground arith,
      (
        λ env. ground arith,
        (
          λ env. ground arith,
          (
            λ env. ground arith,
            (
              λ env. ground arith,
              (
                λ env. ground arith,
                (
                  λ env. ground arith,
                  (
                    λ env. ground arith,
                    (
                      λ env. ground arith,
                      (
                        λ env. ground arith,
                        (
                          λ env. ground arith,
                          (
                            λ env. ground arith,
                            (
                              λ env. ground arith,
                              (
                                λ env. ground arith,
                                (λ env. ground arith, (λ env. ground arith, tt)),
                              ),
                            ),
                          ),
                        ),
                      ),
                    ),
                  ),
                ),
              ),
            ),
          ),
        ),
      ),
    ),
  ),
)

-- A pattern with terms for its variables.
abbrev pub instance_of : (Var → PgrsLang) → Term Var → PgrsLang
instance_of put lit_neg = lit_neg
instance_of put lit_zero = lit_zero
instance_of put lit_pos = lit_pos
instance_of put (mv_neg_of t) = mv_neg_of (instance_of put t)
instance_of put (mv_add_of t u) = mv_add_of (instance_of put t) (instance_of put u)
instance_of put (mv_mul_of t u) = mv_mul_of (instance_of put t) (instance_of put u)
instance_of put (mv_sub_of t u) = mv_sub_of (instance_of put t) (instance_of put u)
instance_of put (meet_of t u) = meet_of (instance_of put t) (instance_of put u)
instance_of put (join_of t u) = join_of (instance_of put t) (instance_of put u)
instance_of put (merge_of t u w) =
    merge_of (instance_of put t) (instance_of put u) (instance_of put w)
instance_of put (b_add_of t u) = b_add_of (instance_of put t) (instance_of put u)
instance_of put (symbol s) = put s

denote-instance_of :
    (env : Symbol → T) (put : Var → PgrsLang) (t : Term Var)
    → denote env (instance_of put t) ≡ denote (λ s. denote env (put s)) t
unfolding denote
denote-instance_of env put lit_neg = refl
denote-instance_of env put lit_zero = refl
denote-instance_of env put lit_pos = refl
denote-instance_of env put (mv_neg_of t) = ap mv_neg (denote-instance_of env put t)
denote-instance_of env put (mv_add_of t u) =
    ap₂ mv_add (denote-instance_of env put t) (denote-instance_of env put u)
denote-instance_of env put (mv_mul_of t u) =
    ap₂ mv_mul (denote-instance_of env put t) (denote-instance_of env put u)
denote-instance_of env put (mv_sub_of t u) =
    ap₂ mv_sub (denote-instance_of env put t) (denote-instance_of env put u)
denote-instance_of env put (meet_of t u) =
    ap₂ meet (denote-instance_of env put t) (denote-instance_of env put u)
denote-instance_of env put (join_of t u) =
    ap₂ join (denote-instance_of env put t) (denote-instance_of env put u)
denote-instance_of env put (merge_of t u w) =
    rw (denote-instance_of env put t, denote-instance_of env put u, denote-instance_of env put w)
      refl
denote-instance_of env put (b_add_of t u) =
    ap₂ bochvar_add (denote-instance_of env put t) (denote-instance_of env put u)
denote-instance_of env put (symbol s) = refl

-- The terms that saturation may put in one class: instances of the rules, and what follows by
-- equality and congruence.
pub data Derives : PgrsLang → PgrsLang → Type 0 where
  by_rule :
      (rule : Rewrite) (put : Var → PgrsLang)
      → Any (λ other. other ≡ rule) pgrs_rules
      → Derives (instance_of put rule.lhs) (instance_of put rule.rhs)
  same_term : (t : PgrsLang) → Derives t t
  backwards : (t u : PgrsLang) → Derives t u → Derives u t
  chain : (t u w : PgrsLang) → Derives t u → Derives u w → Derives t w
  under_neg : (t t' : PgrsLang) → Derives t t' → Derives (mv_neg_of t) (mv_neg_of t')
  under_add :
      (t t' u u' : PgrsLang)
      → Derives t t'
      → Derives u u'
      → Derives (mv_add_of t u) (mv_add_of t' u')
  under_mul :
      (t t' u u' : PgrsLang)
      → Derives t t'
      → Derives u u'
      → Derives (mv_mul_of t u) (mv_mul_of t' u')
  under_sub :
      (t t' u u' : PgrsLang)
      → Derives t t'
      → Derives u u'
      → Derives (mv_sub_of t u) (mv_sub_of t' u')
  under_meet :
      (t t' u u' : PgrsLang) → Derives t t' → Derives u u' → Derives (meet_of t u) (meet_of t' u')
  under_join :
      (t t' u u' : PgrsLang) → Derives t t' → Derives u u' → Derives (join_of t u) (join_of t' u')
  under_b_add :
      (t t' u u' : PgrsLang) → Derives t t' → Derives u u' → Derives (b_add_of t u) (b_add_of t' u')
  under_merge :
      (t t' u u' w w' : PgrsLang)
      → Derives t t'
      → Derives u u'
      → Derives w w'
      → Derives (merge_of t u w) (merge_of t' u' w')

rule-denote :
    (rules : List Rewrite) (rule : Rewrite) (env : Var → T)
    → All IsSound rules
    → Any (λ other. other ≡ rule) rules
    → denote env rule.lhs ≡ denote env rule.rhs
rule-denote [] rule env sound m = elim m [ ]
rule-denote (other ∷ rules) rule env (s, rest) (here e) =
    subst (λ (k : Rewrite). denote env k.lhs ≡ denote env k.rhs) e (s env)
rule-denote (other ∷ rules) rule env (s, rest) (there m) = rule-denote rules rule env rest m

-- Terms that saturation may put in one class denote the same value, whatever the symbols stand for.
pub Derives-denote : (t u : PgrsLang) (env : Symbol → T) → Derives t u → denote env t ≡ denote env u
unfolding denote
Derives-denote _ _ env (by_rule rule put m) =
    denote-instance_of env put rule.lhs
    ∙ rule-denote pgrs_rules rule (λ s. denote env (put s)) pgrs_rules-IsSound m
    ∙ sym (denote-instance_of env put rule.rhs)
Derives-denote _ _ env (same_term t) = refl
Derives-denote _ _ env (backwards t u d) = sym (Derives-denote t u env d)
Derives-denote _ _ env (chain t u w d e) = Derives-denote t u env d ∙ Derives-denote u w env e
Derives-denote _ _ env (under_neg t t' d) = ap mv_neg (Derives-denote t t' env d)
Derives-denote _ _ env (under_add t t' u u' d e) =
    ap₂ mv_add (Derives-denote t t' env d) (Derives-denote u u' env e)
Derives-denote _ _ env (under_mul t t' u u' d e) =
    ap₂ mv_mul (Derives-denote t t' env d) (Derives-denote u u' env e)
Derives-denote _ _ env (under_sub t t' u u' d e) =
    ap₂ mv_sub (Derives-denote t t' env d) (Derives-denote u u' env e)
Derives-denote _ _ env (under_meet t t' u u' d e) =
    ap₂ meet (Derives-denote t t' env d) (Derives-denote u u' env e)
Derives-denote _ _ env (under_join t t' u u' d e) =
    ap₂ join (Derives-denote t t' env d) (Derives-denote u u' env e)
Derives-denote _ _ env (under_b_add t t' u u' d e) =
    ap₂ bochvar_add (Derives-denote t t' env d) (Derives-denote u u' env e)
Derives-denote _ _ env (under_merge t t' u u' w w' d e f) =
    rw (Derives-denote t t' env d, Derives-denote u u' env e, Derives-denote w w' env f) refl

on_pair-some :
    (f : T → T → T) (o p : Option T) (c : T)
    → on_pair f (zip o p) ≡ some c
    → (d : T) × (e : T) × (o ≡ some d) × (p ≡ some e) × (f d e ≡ c)
on_pair-some f none p c h = cc
on_pair-some f (some d) none c h = cc
on_pair-some f (some d) (some e) c h = (d, e, refl, refl, some-inj h)

-- The constant of a term, if it has one, is what the term denotes, whatever the symbols stand for.
pub constant-denote :
    {S : Type 0} (t : Term S) (env : S → T) (c : T) → constant t ≡ some c → denote env t ≡ c
unfolding constant denote
constant-denote lit_neg env c h = some-inj h
constant-denote lit_zero env c h = some-inj h
constant-denote lit_pos env c h = some-inj h
constant-denote (mv_neg_of t) env c h = elim (Option-cases (constant t)) [
  | inl e ↦ ground (arith, e)
  | inr (d, e) ↦
      let value : mv_neg d ≡ c = ground (arith, e) in ap mv_neg (constant-denote t env d e) ∙ value
]
constant-denote (mv_add_of t u) env c h =
    let (d, e, p, q, value) = on_pair-some mv_add (constant t) (constant u) c h in
    ap₂ mv_add (constant-denote t env d p) (constant-denote u env e q) ∙ value
constant-denote (mv_mul_of t u) env c h =
    let (d, e, p, q, value) = on_pair-some mv_mul (constant t) (constant u) c h in
    ap₂ mv_mul (constant-denote t env d p) (constant-denote u env e q) ∙ value
constant-denote (mv_sub_of t u) env c h =
    let (d, e, p, q, value) = on_pair-some mv_sub (constant t) (constant u) c h in
    ap₂ mv_sub (constant-denote t env d p) (constant-denote u env e q) ∙ value
constant-denote (meet_of t u) env c h =
    let (d, e, p, q, value) = on_pair-some meet (constant t) (constant u) c h in
    ap₂ meet (constant-denote t env d p) (constant-denote u env e q) ∙ value
constant-denote (join_of t u) env c h =
    let (d, e, p, q, value) = on_pair-some join (constant t) (constant u) c h in
    ap₂ join (constant-denote t env d p) (constant-denote u env e q) ∙ value
constant-denote (b_add_of t u) env c h =
    let (d, e, p, q, value) = on_pair-some bochvar_add (constant t) (constant u) c h in
    ap₂ bochvar_add (constant-denote t env d p) (constant-denote u env e q) ∙ value
constant-denote (merge_of t u w) env c h = elim (Option-cases (constant t)) [
  | inl e ↦ ground (arith, e)
  | inr (d, e) ↦ elim (Option-cases (constant u)) [
    | inl f ↦ ground (arith, e, f)
    | inr (d', f) ↦ elim (Option-cases (constant w)) [
      | inl g ↦ ground (arith, e, f, g)
      | inr (d'', g) ↦
          let value : merge d d' d'' ≡ c = ground (arith, e, f, g) in
          rw (constant-denote t env d e, constant-denote u env d' f, constant-denote w env d'' g)
            value
    ]
  ]
]
constant-denote (symbol s) env c h = cc
