-- ===== src/Derivation/Weight.antt =====
-- src/modules/order-derivation/weight.ts: the dead weight of a parcel (F-24), in integer grams.
-- `undefined` and `null` rungs are both `none`; a line's quantity is an integer.
pub mod Ladder
pub mod Total
use jsyxi_shipping.Prelude.{
  ℕ, ◌+◌, Bool, true, false, not, ◌&&◌, Option, none, some, List, [], ◌∷◌, ◌++◌, map, Text,
  is_empty, trim, to_text, pad_start, ◌==◌, ltb, if◌then◌else◌,
}
use jsyxi_shipping.Prelude.Int.{ℤ, pos, pos_part, neg_part, ltb_ℤ, eq_ℤ, neg, quot, rem, ◌+ℤ◌, ◌*ℤ◌}
use jsyxi_shipping.Result.{Result, ok, err, invalid_weight, of_scaled, traverse, ◌>>=◌}

unfoldable pub kg_to_grams : Text → Result ℕ
kg_to_grams value = of_scaled 3 invalid_weight value

-- BigInt.prototype.toString
unfoldable pub bigint_text : ℤ → Text
bigint_text a = if ltb_ℤ a (pos 0) then b'-' ∷ to_text (neg_part a) else to_text (pos_part a)

unfoldable pub grams_to_kg : ℤ → Text
unfolding bigint_text
grams_to_kg grams =
    bigint_text (quot grams 1000) ++ b'.' ∷ pad_start 3 b'0' (bigint_text (rem grams 1000))

pub data WeightSource : Type 0 where
  sku_override line_override shopify unweighed : WeightSource

pub record DeadWeightLineInput : Type 0 where
  pub order_line_id : Option Text
  pub sku : Option Text
  pub quantity : ℤ
  pub sku_override_weight_kg : Option Text
  pub line_override_weight_kg : Option Text
  pub shopify_weight_kg : Option Text

pub record DeadWeightLineResult : Type 0 where
  pub order_line_id : Option Text
  pub sku : Option Text
  pub quantity : ℤ
  pub per_unit_weight_kg : Text
  pub line_weight_kg : Text
  pub source : WeightSource
  pub no_weight : Bool

pub record DeadWeightResult : Type 0 where
  pub dead_weight_kg : Text
  pub line_weight_total_kg : Text
  pub tare_kg : Text
  pub used_default_parcel_weight : Bool
  pub lines : List DeadWeightLineResult

abbrev pub is_blank : Option Text → Bool
is_blank none = true
is_blank (some value) = is_empty (trim value)

-- The loop over the rungs: the first one that is there and not blank.
unfoldable pub first_rung : List (WeightSource × Option Text) → Result (ℕ × WeightSource)
first_rung [] = ok (0, unweighed)
first_rung ((_, none) ∷ rungs) = first_rung rungs
first_rung ((rung, some value) ∷ rungs) =
    let rest = first_rung rungs in
    if is_empty (trim value) then rest else do grams ← kg_to_grams value; ok (grams, rung)

unfoldable pub resolve_per_unit : DeadWeightLineInput → Result (ℕ × WeightSource)
unfolding first_rung
resolve_per_unit line = first_rung (
    (sku_override, line.sku_override_weight_kg)
    ∷ (line_override, line.line_override_weight_kg)
    ∷ (shopify, line.shopify_weight_kg)
    ∷ [])

abbrev pub is_unweighed : WeightSource → Bool
is_unweighed unweighed = true
is_unweighed _ = false

unfoldable pub line_result : DeadWeightLineInput → Result DeadWeightLineResult
line_result line = do
  (grams, source) ← resolve_per_unit line
  let line_grams = pos grams *ℤ line.quantity
  ok (record {
    order_line_id = line.order_line_id;
    sku = line.sku;
    quantity = line.quantity;
    per_unit_weight_kg = grams_to_kg (pos grams);
    line_weight_kg = grams_to_kg line_grams;
    source = source;
    no_weight = is_unweighed source;
  })

-- `results.reduce((acc, l) => acc + kgToGrams(l.lineWeightKg), 0n)`
unfoldable pub line_weight_total : ℕ → List DeadWeightLineResult → Result ℕ
line_weight_total acc [] = ok acc
line_weight_total acc (l ∷ ls) = do
  grams ← kg_to_grams l.line_weight_kg
  line_weight_total (acc + grams) ls

unfoldable pub derive_dead_weight : List DeadWeightLineInput → Text → Text → Result DeadWeightResult
derive_dead_weight lines tare_kg default_parcel_weight_kg = do
  results ← traverse line_result lines
  total ← line_weight_total 0 results
  let used_default = total == 0
  content ← if used_default then kg_to_grams default_parcel_weight_kg else ok total
  tare ← kg_to_grams tare_kg
  ok (record {
    dead_weight_kg = grams_to_kg (pos (content + tare));
    line_weight_total_kg = grams_to_kg (pos total);
    tare_kg = grams_to_kg (pos tare);
    used_default_parcel_weight = used_default;
    lines = results;
  })
