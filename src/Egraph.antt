-- ===== src/Egraph.antt =====
-- The e-graph layer of core-rs/src/egraph.rs: the language, its constant analysis and rewrite rules,
-- summaries, port histories and section regions. Saturation itself is done by the crate `egg`, which
-- is a parameter (Egraph/Stabilize). An e-class id of `egg` is modelled by the term that was added
-- under it, and a symbol by what its name is made of. Versions are `u64` that wrap.
pub mod Rules
pub mod Section
pub mod Build
pub mod Stabilize
pub mod History
use Prim.Native.String.{String}
use mathlib.Core.Option
use pgress.Prelude.{
  ℕ, ◌+◌, min, Bool, true, false, not, ◌||◌, List, [], ◌∷◌, Option, none, some, leb, eqb,
  if◌then◌else◌, Map, ◌==◌,
}
use pgress.Prelude.Texts.{string_eq}
use pgress.Prelude.Words.{inc64}
use pgress.Ternary.{
  T, neg, pos, same, mv_neg, mv_add, mv_mul, mv_sub, meet, join, merge, bochvar_add,
}

-- `PgrsLang`, over the names that stand for `Symbol` (or for the variables of a pattern).
pub data Term (S : Type 0) : Type 0 where
  lit_neg lit_zero lit_pos : Term S
  mv_neg_of : Term S → Term S
  mv_add_of mv_mul_of mv_sub_of meet_of join_of : Term S → Term S → Term S
  merge_of : Term S → Term S → Term S → Term S
  b_add_of : Term S → Term S → Term S
  symbol : S → Term S

-- `mu_{id}` and `bnd_{uid}_{version}`.
pub data Symbol : Type 0 where
  mu : ℕ → Symbol
  bnd : ℕ → ℕ → Symbol

abbrev pub PgrsLang : Type 0
PgrsLang = Term Symbol

abbrev pub zip {ℓ κ} : {A : Type ℓ} {B : Type κ} → Option A → Option B → Option (A × B)
zip none b = none
zip (some a) none = none
zip (some a) (some b) = some (a, b)

abbrev pub on_pair : (T → T → T) → Option (T × T) → Option T
on_pair f none = none
on_pair f (some (a, b)) = some (f a b)

abbrev pub on_triple : (T → T → T → T) → Option ((T × T) × T) → Option T
on_triple f none = none
on_triple f (some ((a, b), c)) = some (f a b c)

-- `TernaryData::make`, on a term: the constant of the class of each child is that of the child.
unfoldable pub constant : {S : Type 0} → Term S → Option T
constant lit_neg = some neg
constant lit_zero = some T.zero
constant lit_pos = some pos
constant (mv_neg_of x) = Option.map mv_neg (constant x)
constant (mv_add_of a b) = on_pair mv_add (zip (constant a) (constant b))
constant (mv_mul_of a b) = on_pair mv_mul (zip (constant a) (constant b))
constant (mv_sub_of a b) = on_pair mv_sub (zip (constant a) (constant b))
constant (meet_of a b) = on_pair meet (zip (constant a) (constant b))
constant (join_of a b) = on_pair join (zip (constant a) (constant b))
constant (merge_of b l r) = on_triple merge (zip (zip (constant b) (constant l)) (constant r))
constant (b_add_of a b) = on_pair bochvar_add (zip (constant a) (constant b))
constant (symbol s) = none

-- `TernaryData::merge`: the data kept, and the two flags of `DidMerge`.
unfoldable pub merge_data : Option T → Option T → Option T × Bool × Bool
merge_data none (some v) = (some v, true, false)
merge_data none none = (none, false, false)
merge_data (some t) from = (some t, false, false)

-- The variables of the patterns, without their question marks.
pub data Var : Type 0 where
  x a b l r : Var

-- `rw!("name"; "lhs" => "rhs")`.
pub record Rewrite : Type 0 where
  pub name : String
  pub lhs : Term Var
  pub rhs : Term Var

abbrev rw_rule : String → Term Var → Term Var → Rewrite
rw_rule name lhs rhs = record { name = name; lhs = lhs; rhs = rhs }

abbrev v : Var → Term Var
v = symbol

abbrev pub pgrs_rules : List Rewrite
pgrs_rules =
    rw_rule "neg-invol" (mv_neg_of (mv_neg_of (v x))) (v x)
    ∷ rw_rule "neg-zero" (mv_neg_of lit_zero) lit_zero
    ∷ rw_rule "add-comm" (mv_add_of (v a) (v b)) (mv_add_of (v b) (v a))
    ∷ rw_rule "add-id-l" (mv_add_of lit_neg (v x)) (v x)
    ∷ rw_rule "add-id-r" (mv_add_of (v x) lit_neg) (v x)
    ∷ rw_rule "mul-comm" (mv_mul_of (v a) (v b)) (mv_mul_of (v b) (v a))
    ∷ rw_rule "mul-id-l" (mv_mul_of lit_pos (v x)) (v x)
    ∷ rw_rule "mul-id-r" (mv_mul_of (v x) lit_pos) (v x)
    ∷ rw_rule "annihilator" (mv_add_of (v x) (mv_neg_of (v x))) lit_pos
    ∷ rw_rule "merge-same" (merge_of (v b) (v x) (v x)) (v x)
    ∷ rw_rule "merge-comm" (merge_of (v b) (v l) (v r)) (merge_of (v b) (v r) (v l))
    ∷ rw_rule "bochvar-l" (b_add_of lit_zero (v x)) lit_zero
    ∷ rw_rule "bochvar-r" (b_add_of (v x) lit_zero) lit_zero
    ∷ rw_rule "de-morgan-add" (mv_neg_of (mv_add_of (v a) (v b)))
        (mv_mul_of (mv_neg_of (v a)) (mv_neg_of (v b)))
    ∷ rw_rule "meet-neg-l" (meet_of lit_neg (v x)) lit_neg
    ∷ rw_rule "meet-pos-l" (meet_of lit_pos (v x)) (v x)
    ∷ rw_rule "join-pos-l" (join_of lit_pos (v x)) lit_pos
    ∷ rw_rule "join-neg-l" (join_of lit_neg (v x)) (v x)
    ∷ []

-- The cost is a float, whose type and test `(a - b).abs() > f64::EPSILON` are given.
pub record EClassSummary (Cost : Type 0) : Type 0 where
  pub canonical : ℕ
  pub cost : Cost
  pub type_sig : String
  pub boundary_shape : ℕ
  pub version : ℕ

abbrev pub new_summary : {Cost : Type 0} → ℕ → Cost → String → ℕ → EClassSummary Cost
new_summary canonical cost type_sig boundary_shape = record {
  canonical = canonical;
  cost = cost;
  type_sig = type_sig;
  boundary_shape = boundary_shape;
  version = 0;
}

unfoldable pub update_summary :
    {Cost : Type 0}
    → (Cost → Cost → Bool)
    → ℕ
    → Cost
    → String
    → ℕ
    → EClassSummary Cost
    → EClassSummary Cost × Bool
update_summary far canonical cost type_sig boundary_shape s =
    let changed =
      not (eqb s.canonical canonical)
      || far s.cost cost
      || not (s.type_sig == type_sig)
      || not (eqb s.boundary_shape boundary_shape) in
    (
      if changed
          then record {
            canonical = canonical;
            cost = cost;
            type_sig = type_sig;
            boundary_shape = boundary_shape;
            version = inc64 s.version;
          }
          else s,
      changed,
    )

unfoldable pub lit : {S : Type 0} → T → Term S
lit neg = lit_neg
lit T.zero = lit_zero
lit pos = lit_pos

pub data StabZeroKind : Type 0 where
  structural boundary informational : StabZeroKind

pub data PortCompliance : Type 0 where
  port_pos port_neg : PortCompliance
  port_zero : StabZeroKind → PortCompliance

pub record PortHistory : Type 0 where
  pub last_state : Option T
  pub last_transition : Option (T × T)
  pub alternating_count : ℕ
  pub last_change_arrival : ℕ

abbrev pub no_history : PortHistory
no_history = record {
  last_state = none;
  last_transition = none;
  alternating_count = 0;
  last_change_arrival = 0;
}

abbrev pub is_state : T → Option T → Bool
is_state v none = false
is_state v (some w) = same w v

-- The count after a change: a reversal adds one, up to 255.
abbrev pub count_change : Option T → Option (T × T) → ℕ → ℕ
count_change none transition count = count
count_change (some last) none count = count
count_change (some last) (some (start, prev_to)) count =
    if not (same last prev_to) then min (count + 1) 255 else 0

unfoldable pub update_history : T → ℕ → PortHistory → PortHistory × Bool
update_history new_state arrival h =
    let changed = not (is_state new_state h.last_state) in
    (
      if changed
          then record {
            last_state = some new_state;
            last_transition = Option.map (λ old. (old, new_state)) h.last_state;
            alternating_count = count_change h.last_state h.last_transition h.alternating_count;
            last_change_arrival = arrival;
          }
          else h,
      changed,
    )

unfoldable pub is_oscillating : PortHistory → Bool
is_oscillating h = leb 3 h.alternating_count

pub record BoundaryPin : Type 0 where
  pub uid : ℕ
  pub version : ℕ
  pub value : T

abbrev pub symbol_name : BoundaryPin → Symbol
symbol_name pin = bnd pin.uid pin.version

pub record SectionRegion : Type 0 where
  pub members : List ℕ
  pub boundary : Map ℕ BoundaryPin
