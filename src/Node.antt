-- ===== src/Node.antt =====
-- Nodes, compute rules and ports of core-rs/src/node.rs. Ids are UUIDs, as numbers. A node's version
-- is a `u64` that wraps.
pub mod Rules
pub mod Versions
pub mod Policy
use Prim.Native.String.{String}
use pgress.Prelude.{
  ◌>>=◌, ℕ, Bool, true, false, not, List, [], ◌∷◌, Option, none, some, if◌then◌else◌,
}
use mathlib.Core.Option
use pgress.Prelude.Words.{inc64}
use pgress.Ternary.{
  T, neg, pos, same, mv_neg, mv_add, mv_mul, mv_sub, merge, meet_all, join_any, bochvar_fold_add,
}
use pgress.Attr.{Attrs, reflect_ternary}

pub data ComputeRule : Type 0 where
  identity mv_neg_of mv_add_of mv_mul_of mv_sub_of merge_of : ComputeRule
  meet_all_of join_any_of bochvar_fold power_product : ComputeRule

pub data NodeKind : Type 0 where
  input : NodeKind
  computed : ComputeRule → NodeKind

pub record Node : Type 0 where
  pub id : ℕ
  pub typ : String
  pub kind : NodeKind
  pub value : T
  pub attrs : Attrs
  pub version : ℕ

-- `Node::input` and `Node::computed`, by the kind.
abbrev pub fresh_node : ℕ → String → NodeKind → Node
fresh_node id typ kind = record {
  id = id;
  typ = typ;
  kind = kind;
  value = neg;
  attrs = [];
  version = 0;
}

-- The new node and the old value.
unfoldable pub set_value : T → Node → Node × T
set_value new n = (
  if not (same new n.value) then record n { value = new; version = inc64 n.version } else n,
  n.value,
)

-- `self.attrs.reflect_ternary()` takes `&self` and returns the reflected map, which the two callers
-- below drop: the node keeps its attributes.
abbrev pub dropping : Attrs → Node → Node
dropping reflected n = n

unfoldable pub reflect_attrs : Node → Node
reflect_attrs n =
    let n' = dropping (reflect_ternary n.attrs) n in record n' { version = inc64 n'.version }

unfoldable pub reflect : Node → Node × T
unfolding mv_neg
reflect n =
    let n' = dropping (reflect_ternary n.attrs) (record n { value = mv_neg n.value }) in
    (record n' { version = inc64 n'.version }, n.value)

abbrev pub rule_of : NodeKind → Option ComputeRule
rule_of input = none
rule_of (computed r) = some r

-- The operations on the first one, two or three dependencies, `None` if there are fewer.
abbrev pub on_one : (T → T) → List T → Option T
on_one f [] = none
on_one f (a ∷ deps) = some (f a)

abbrev pub on_two : (T → T → T) → List T → Option T
on_two f [] = none
on_two f (a ∷ []) = none
on_two f (a ∷ b ∷ deps) = some (f a b)

abbrev pub on_three : (T → T → T → T) → List T → Option T
on_three f [] = none
on_three f (a ∷ []) = none
on_three f (a ∷ b ∷ []) = none
on_three f (a ∷ b ∷ c ∷ deps) = some (f a b c)

unfoldable pub eval : ComputeRule → List T → Option T
eval identity deps = on_one (λ a. a) deps
eval mv_neg_of deps = on_one mv_neg deps
eval mv_add_of deps = on_two mv_add deps
eval mv_mul_of deps = on_two mv_mul deps
eval mv_sub_of deps = on_two mv_sub deps
eval merge_of deps = on_three merge deps
eval meet_all_of deps = some (meet_all deps)
eval join_any_of deps = some (join_any deps)
eval bochvar_fold deps = some (bochvar_fold_add deps)
eval power_product deps = on_two mv_mul deps

unfoldable pub diff : ComputeRule → List T → List T → Option T
unfolding eval
diff rule old_deps new_deps = do
  old_val ← eval rule old_deps
  new_val ← eval rule new_deps
  if not (same new_val old_val) then some new_val else none

pub data PortKind : Type 0 where
  effort flow bond signal : PortKind

pub record Port : Type 0 where
  pub name : String
  pub kind : PortKind

pub data ExecMode : Type 0 where
  eager lazy stabilizing : ExecMode

abbrev pub same_mode : ExecMode → ExecMode → Bool
same_mode eager eager = true
same_mode lazy lazy = true
same_mode stabilizing stabilizing = true
same_mode _ _ = false

unfoldable pub preferred_mode : PortKind → Option ExecMode
preferred_mode effort = some lazy
preferred_mode flow = some eager
preferred_mode bond = some stabilizing
preferred_mode signal = none

unfoldable pub is_power : PortKind → Bool
is_power effort = true
is_power flow = true
is_power bond = true
is_power signal = false

unfoldable pub power_sign : PortKind → T → Option T
unfolding is_power
power_sign kind val = if is_power kind then some val else none
