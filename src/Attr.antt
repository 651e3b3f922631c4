-- ===== src/Attr.antt =====
-- Attribute maps of core-rs/src/attr.rs. An `i64` and an `f64` stand as their bit patterns: the
-- modelled code stores them and does not compute with them.
use Prim.Native.String.{String}
use pgress.Prelude.{ℕ, ◌≡◌, refl, ap₂, Bool, [], ◌∷◌, Option, none, some, Map, get, insert}
use pgress.Prelude.Texts.{string_eq}
use pgress.Ternary.{T, neg, pos, mv_neg}

pub data Val : Type 0 where
  ternary : T → Val
  int : ℕ → Val
  float : ℕ → Val
  text : String → Val
  bool : Bool → Val

abbrev pub Attrs : Type 0
Attrs = Map String Val

abbrev pub as_ternary : Val → Option T
as_ternary (ternary t) = some t
as_ternary _ = none

abbrev pub as_int : Val → Option ℕ
as_int (int n) = some n
as_int _ = none

unfoldable pub get_attr : String → Attrs → Option Val
get_attr key a = get key a

unfoldable pub set_attr : String → Val → Attrs → Attrs
set_attr key v a = insert key v a

unfoldable pub reflect_val : Val → Val
unfolding mv_neg
reflect_val (ternary t) = ternary (mv_neg t)
reflect_val (int n) = int n
reflect_val (float x) = float x
reflect_val (text s) = text s
reflect_val (bool b) = bool b

unfoldable pub reflect_ternary : Attrs → Attrs
unfolding reflect_val
reflect_ternary [] = []
reflect_ternary ((k, v) ∷ a) = (k, reflect_val v) ∷ reflect_ternary a

reflect_val-involutive : (v : Val) → reflect_val (reflect_val v) ≡ v
unfolding reflect_val
reflect_val-involutive (ternary neg) = refl
reflect_val-involutive (ternary pos) = refl
reflect_val-involutive (ternary T.zero) = refl
reflect_val-involutive (int n) = refl
reflect_val-involutive (float x) = refl
reflect_val-involutive (text s) = refl
reflect_val-involutive (bool b) = refl

pub reflect_ternary-involutive : (a : Attrs) → reflect_ternary (reflect_ternary a) ≡ a
unfolding reflect_ternary
reflect_ternary-involutive [] = refl
reflect_ternary-involutive ((k, v) ∷ a) =
    ap₂ (λ (w : Val) (b : Attrs). (k, w) ∷ b) (reflect_val-involutive v)
      (reflect_ternary-involutive a)
