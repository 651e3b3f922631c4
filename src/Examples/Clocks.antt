-- ===== src/Examples/Clocks.antt =====
-- Timestamps, frontiers and vector clocks at concrete inputs.
use pgress.Prelude.{◌≡◌, ◌||◌, ◌&&◌, [], ◌∷◌, nat_eq}
use pgress.Time.{ProductTime, origin}
use pgress.Time.Frontier.{
  Frontier, IsAntichain, advance-IsAntichain, join-IsAntichain, meet-IsAntichain,
  dominates-join_lem, dominates-meet_lem, dominates-advance,
}
use pgress.Time.Frontier

abbrev early : ProductTime
early = record origin { at_identity = 2 }

abbrev late : ProductTime
late = record origin { at_identity = 1; at_attribute = 5 }

dominates-join_lem_example :
    Frontier.dominates (Frontier.join (early ∷ []) (late ∷ [])) origin
    ≡ (Frontier.dominates (early ∷ []) origin || Frontier.dominates (late ∷ []) origin)
dominates-join_lem_example = dominates-join_lem (early ∷ []) (late ∷ []) origin

dominates-meet_lem_example :
    Frontier.dominates (Frontier.meet (early ∷ []) (late ∷ [])) origin
    ≡ (Frontier.dominates (early ∷ []) origin && Frontier.dominates (late ∷ []) origin)
dominates-meet_lem_example = dominates-meet_lem (early ∷ []) (late ∷ []) origin
