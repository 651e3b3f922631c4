-- ===== src/Time/Order.antt =====
-- `ProductTime` is ordered by components, a lattice, and moved upwards by `advance`.
use pgress.Prelude.{◌+◌, ◌^◌, ◌<◌, ◌≤◌, ◌≡◌, ◌↔◌, arith, true, false}
use pgress.Dims.{TimeDim, identity, attribute, dependency, egraph, boundary}
use pgress.Time.{ProductTime, dominates, meet, join, advance, get_dim, delta}

-- Below in every dimension.
pub record Below (t u : ProductTime) : Type 0 where
  pub on_identity : t.at_identity ≤ u.at_identity
  pub on_attribute : t.at_attribute ≤ u.at_attribute
  pub on_dependency : t.at_dependency ≤ u.at_dependency
  pub on_egraph : t.at_egraph ≤ u.at_egraph
  pub on_boundary : t.at_boundary ≤ u.at_boundary

pub dominates→Below : (t u : ProductTime) → dominates t u ≡ true → Below u t
unfolding dominates
dominates→Below t u h = ground arith

pub Below→dominates : (t u : ProductTime) → Below u t → dominates t u ≡ true
unfolding dominates
Below→dominates t u h = ground arith

pub dominates_refl : (t : ProductTime) → dominates t t ≡ true
unfolding dominates
dominates_refl t = ground arith

pub dominates_trans :
    (t u v : ProductTime) → dominates t u ≡ true → dominates u v ≡ true → dominates t v ≡ true
dominates_trans t u v p q =
    let a = dominates→Below t u p in
    let b = dominates→Below u v q in Below→dominates t v (omega arith)

pub dominates-antisym : (t u : ProductTime) → dominates t u ≡ true → dominates u t ≡ true → t ≡ u
dominates-antisym t u p q =
    let a = dominates→Below t u p in let b = dominates→Below u t q in ground arith

-- `join` is the least upper bound of dominance: a timestamp dominates it exactly if it dominates
-- both.
pub dominates-join :
    (t u v : ProductTime)
    → (dominates v (join t u) ≡ true) ↔ ((dominates v t ≡ true) × (dominates v u ≡ true))
unfolding dominates join
dominates-join t u v = ground arith

-- `meet` is the greatest lower bound: it dominates a timestamp exactly if both do.
pub dominates-meet :
    (t u v : ProductTime)
    → (dominates (meet t u) v ≡ true) ↔ ((dominates t v ≡ true) × (dominates u v ≡ true))
unfolding dominates meet
dominates-meet t u v = ground arith

-- After the advance of a counter that has not reached its end, `delta` reads the dimension and the
-- counter, one higher, off the two timestamps, and the new one strictly dominates the old one.
delta-advance :
    (dim : TimeDim) (t : ProductTime)
    → get_dim dim t + 1 < 2 ^ 64
    → (delta t (advance dim t) ≡ record { dim = dim; counter = get_dim dim t + 1 })
      × (dominates (advance dim t) t ≡ true)
      × (dominates t (advance dim t) ≡ false)
unfolding delta advance get_dim dominates
delta-advance identity t h = ground arith
delta-advance attribute t h = ground arith
delta-advance dependency t h = ground arith
delta-advance egraph t h = ground arith
delta-advance boundary t h = ground arith
