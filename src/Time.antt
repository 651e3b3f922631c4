-- ===== src/Time.antt =====
-- The product timestamp of core-rs/src/time.rs. A `u64` counter is a number below 2^64, and `+= 1`
-- wraps, as in a release build.
pub mod Order
pub mod Frontier
pub mod Clock
use pgress.Prelude.{ℕ, ◌+◌, min, max, Bool, true, false, ◌&&◌, ltb, leb, if◌then◌else◌}
use pgress.Prelude.Words.{inc64}
use pgress.Dims.{TimeDim, identity, attribute, dependency, egraph, boundary}

pub record ProductTime : Type 0 where
  pub at_identity : ℕ
  pub at_attribute : ℕ
  pub at_dependency : ℕ
  pub at_egraph : ℕ
  pub at_boundary : ℕ

-- `ProductTime::ZERO`.
abbrev pub origin : ProductTime
origin = record {
  at_identity = 0;
  at_attribute = 0;
  at_dependency = 0;
  at_egraph = 0;
  at_boundary = 0;
}

unfoldable pub dominates : ProductTime → ProductTime → Bool
dominates t u =
    leb u.at_identity t.at_identity
    && leb u.at_attribute t.at_attribute
    && leb u.at_dependency t.at_dependency
    && leb u.at_egraph t.at_egraph
    && leb u.at_boundary t.at_boundary

unfoldable pub meet : ProductTime → ProductTime → ProductTime
meet t u = record {
  at_identity = min t.at_identity u.at_identity;
  at_attribute = min t.at_attribute u.at_attribute;
  at_dependency = min t.at_dependency u.at_dependency;
  at_egraph = min t.at_egraph u.at_egraph;
  at_boundary = min t.at_boundary u.at_boundary;
}

unfoldable pub join : ProductTime → ProductTime → ProductTime
join t u = record {
  at_identity = max t.at_identity u.at_identity;
  at_attribute = max t.at_attribute u.at_attribute;
  at_dependency = max t.at_dependency u.at_dependency;
  at_egraph = max t.at_egraph u.at_egraph;
  at_boundary = max t.at_boundary u.at_boundary;
}

unfoldable pub advance : TimeDim → ProductTime → ProductTime
advance identity t = record t { at_identity = inc64 t.at_identity }
advance attribute t = record t { at_attribute = inc64 t.at_attribute }
advance dependency t = record t { at_dependency = inc64 t.at_dependency }
advance egraph t = record t { at_egraph = inc64 t.at_egraph }
advance boundary t = record t { at_boundary = inc64 t.at_boundary }

unfoldable pub get_dim : TimeDim → ProductTime → ℕ
get_dim identity t = t.at_identity
get_dim attribute t = t.at_attribute
get_dim dependency t = t.at_dependency
get_dim egraph t = t.at_egraph
get_dim boundary t = t.at_boundary

pub record DeltaTime : Type 0 where
  pub dim : TimeDim
  pub counter : ℕ

pub record EventStamp : Type 0 where
  pub causal : ProductTime
  pub arrival : ℕ

unfoldable pub delta : ProductTime → ProductTime → DeltaTime
delta prev curr =
    if ltb prev.at_identity curr.at_identity
    then record { dim = identity; counter = curr.at_identity }
    else if ltb prev.at_dependency curr.at_dependency
    then record { dim = dependency; counter = curr.at_dependency }
    else if ltb prev.at_attribute curr.at_attribute
    then record { dim = attribute; counter = curr.at_attribute }
    else if ltb prev.at_egraph curr.at_egraph
    then record { dim = egraph; counter = curr.at_egraph }
    else record { dim = boundary; counter = curr.at_boundary }
