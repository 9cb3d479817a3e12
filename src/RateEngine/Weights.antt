-- ===== src/RateEngine/Weights.antt =====
-- src/modules/rate-engine/pricing.ts, weights: volumetric (F-1), chargeable (F-2) and billable (F-3).
-- A `null` result is `none`; a text outside the format throws.
pub mod Billable
use jsyxi_shipping.Prelude.{ℕ, ◌+◌, ◌*◌, Option, none, some, Text, ltb, ◌==◌, if◌then◌else◌}
use jsyxi_shipping.Prelude.Int.{ℤ, pos, pos_part}
use jsyxi_shipping.Result.{Result, ok, invalid_dimension, invalid_divisor, of_scaled, ◌>>=◌}
use jsyxi_shipping.Money.{div_round_half_up, ceil_div}
use jsyxi_shipping.Derivation.Weight.{kg_to_grams, grams_to_kg}

unfoldable pub cm_to_hundredths : Text → Result ℕ
cm_to_hundredths value = of_scaled 2 invalid_dimension value

unfoldable pub divisor_to_ten_thousandths : Text → Result ℕ
divisor_to_ten_thousandths value = of_scaled 4 invalid_divisor value

unfoldable pub volumetric_weight_kg : Text → Text → Text → Option Text → Result (Option Text)
volumetric_weight_kg length_cm width_cm height_cm none = ok none
volumetric_weight_kg length_cm width_cm height_cm (some divisor) = do
  d ← divisor_to_ten_thousandths divisor
  if d == 0 then ok none else do
    l ← cm_to_hundredths length_cm
    w ← cm_to_hundredths width_cm
    h ← cm_to_hundredths height_cm
    grams ← div_round_half_up (pos (l * w * h * 10)) (pos d)
    ok (some (grams_to_kg grams))

unfoldable pub raw_chargeable_weight_kg : Text → Text → Result Text
raw_chargeable_weight_kg dead_weight_kg volumetric_kg = do
  dead ← kg_to_grams dead_weight_kg
  volumetric ← kg_to_grams volumetric_kg
  ok (grams_to_kg (pos (if ltb volumetric dead then dead else volumetric)))

unfoldable pub billable_weight_kg : Text → Option Text → Option Text → Result (Option Text)
billable_weight_kg raw_chargeable_kg (some min_billable_kg) (some increment_kg) = do
  increment ← kg_to_grams increment_kg
  if increment == 0 then ok none else do
    raw ← kg_to_grams raw_chargeable_kg
    min ← kg_to_grams min_billable_kg
    steps ← ceil_div (pos raw) (pos increment)
    let stepped = pos_part steps * increment
    ok (some (grams_to_kg (pos (if ltb min stepped then stepped else min))))
billable_weight_kg raw_chargeable_kg _ _ = ok none

pub record WeightBreakdown : Type 0 where
  pub volumetric_weight_kg : Text
  pub raw_chargeable_kg : Text
  pub billable_weight_kg : Text

pub record WeightTerms : Type 0 where
  pub dead_weight_kg : Text
  pub length_cm : Text
  pub width_cm : Text
  pub height_cm : Text
  pub divisor : Option Text
  pub min_billable_kg : Option Text
  pub increment_kg : Option Text

-- The second half of the pipeline, behind the test `f1 === null`.
unfoldable pub weights_from : WeightTerms → Option Text → Result (Option WeightBreakdown)
weights_from args none = ok none
weights_from args (some f1) = do
  f2 ← raw_chargeable_weight_kg args.dead_weight_kg f1
  f3 ← billable_weight_kg f2 args.min_billable_kg args.increment_kg
  ok (elim f3 [
    | none ↦ none
    | some billable ↦ some (record {
      volumetric_weight_kg = f1;
      raw_chargeable_kg = f2;
      billable_weight_kg = billable;
    })
  ])

unfoldable pub compute_weights : WeightTerms → Result (Option WeightBreakdown)
unfolding weights_from
compute_weights args = do
  f1 ← volumetric_weight_kg args.length_cm args.width_cm args.height_cm args.divisor
  weights_from args f1
