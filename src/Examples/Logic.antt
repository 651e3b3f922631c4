-- ===== src/Examples/Logic.antt =====
-- Ternary logic, rules, masks and deltas at concrete inputs.
use mathlib.Core.Option
use pgress.Prelude.{◌≡◌, inl, refl, arith, true, List, [], ◌∷◌}
use pgress.Prelude.Texts.{string_eq}
use pgress.Ternary.{T, neg, pos, meet_all, join_any, bochvar_fold_add}
use pgress.Ternary.Fold.{folds_by_counts}
use pgress.Node.{Node, fresh_node, input}
use pgress.Attr.{ternary}
use pgress.Dims.{TimeDim, contains, intersects, all_dims, contains_laws}
use pgress.Delta.{
  any_path, has_path, ProjectionMask, affects, matches, covers, path_delta, attribute_mask,
  wildcard_mask,
}
use pgress.Delta.Covers.{covers-affects}

abbrev four_values : List T
four_values = neg ∷ T.zero ∷ pos ∷ pos ∷ []

folds_example :
    (meet_all four_values ≡ neg)
    × (join_any four_values ≡ pos)
    × (bochvar_fold_add four_values ≡ T.zero)
folds_example = folds_by_counts four_values

abbrev labelled : Node
labelled = record (fresh_node 7 "cell" input) { attrs = ("bias", ternary pos) ∷ [] }

abbrev shade_mask : ProjectionMask
shade_mask = record attribute_mask { attrs = "shade" ∷ [] }

shade_affected : affects shade_mask (path_delta 7 "shade") ≡ true
unfolding affects intersects matches any_path has_path
shade_affected = refl

shade_covered : covers wildcard_mask shade_mask ≡ true
unfolding covers
shade_covered = refl

all_dims-contains : (dim : TimeDim) → contains 0b00010 dim ≡ true → contains all_dims dim ≡ true
all_dims-contains dim h = (contains_laws 0 0 dim dim).2

covers-affects_example : affects wildcard_mask (path_delta 7 "shade") ≡ true
covers-affects_example =
    covers-affects wildcard_mask shade_mask (path_delta 7 "shade") (omega arith) (omega arith)
      (λ x h. ground arith) (λ y h. ground arith) (inl all_dims-contains) (λ any. refl)
      shade_covered shade_affected
