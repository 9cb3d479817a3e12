-- ===== src/Examples/Prices.antt =====
-- A tariff, a lane and the return of its parcel, and a parcel's weights.
use jsyxi_shipping.Prelude.{
  ◌≡◌, refl, true, none, some, [], ◌∷◌, codes, ◌≢◌, ◌*◌, ◌==◌, to_text, arith, trim, is_space,
  decimal_groups, text_eq, digits_value,
}
use jsyxi_shipping.Prelude.Int.{pos, ◌*ℤ◌, ◌+ℤ◌, sum, quot, rem}
use jsyxi_shipping.Prelude.Sort.{sort_by}
use jsyxi_shipping.Prelude.Decimal.{scaled}
use jsyxi_shipping.Result.{ok, of_scaled, Returns}
use jsyxi_shipping.Money.{
  rupees_to_paise, paise_to_rupees, rate_to_millionths, apply_rate, half_up, div_round_half_up,
  ceil_div,
}
use jsyxi_shipping.Derivation.Weight.{
  DeadWeightLineInput, kg_to_grams, shopify, resolve_per_unit, derive_dead_weight, grams_to_kg,
}
use jsyxi_shipping.Derivation.Weight.Ladder.{Resolves, resolve_per_unit_lem}
use jsyxi_shipping.Derivation.Weight.Total.{dead_weight, total_grams, derive_dead_weight_lem}
use jsyxi_shipping.RateEngine.Weights.{
  WeightTerms, WeightBreakdown, volumetric_weight_kg, raw_chargeable_weight_kg, billable_weight_kg,
  cm_to_hundredths, divisor_to_ten_thousandths, compute_weights,
}
use jsyxi_shipping.RateEngine.Weights.Billable.{
  Reads as WeightReads, Weighed, NonzeroText, compute_weights_lem, compute_weights_guards,
}
use jsyxi_shipping.RateEngine.Freight.{
  zone_b, zone_eq, flat, price_rows, cod, SlabInput, ComponentRowInput, TariffInput, FreightArgs,
  priceable, compute_freight,
}
use jsyxi_shipping.RateEngine.Freight.Totals.{Priced, compute_freight-Priced}
use jsyxi_shipping.RateEngine.Freight.Price.{Numbers, Reads, price_of, compute_freight_lem}
use jsyxi_shipping.RateEngine.Rto.{
  RtoRule, percent_of_forward, RtoSnapshot, RtoTariff, RtoExpectation, expected, rto_breakdown,
  rto_taxable_base, compute_rto_expectation,
}
use jsyxi_shipping.RateEngine.Rto.Totals.{Expects, compute_rto_expectation-Expects}

abbrev slab_b : SlabInput
slab_b = record {
  zone = zone_b;
  base_weight_kg = codes "0.500";
  base_rate = codes "40.00";
  additional_step_kg = codes "0.500";
  additional_rate = codes "20.00";
}

abbrev docket : ComponentRowInput
docket = record {
  code = codes "DOCKET";
  label = codes "Docket";
  basis = flat;
  value = codes "5.00";
  is_taxable = true;
  position = 1;
}

abbrev tariff : TariffInput
tariff = record {
  fuel_pct = codes "0.100000";
  cod_flat = codes "30.00";
  cod_pct = codes "0.020000";
  gst_pct = codes "0.180000";
  taxable_components = codes "F-5" ∷ codes "F-8" ∷ [];
  slabs = slab_b ∷ [];
  components = docket ∷ [];
}

abbrev lane : FreightArgs
lane = record {
  zone = some zone_b;
  billable_weight_kg = codes "1.200";
  payment_mode = cod;
  collectible = codes "999.00";
  declared_value = codes "999.00";
}

abbrev numbers : Numbers
numbers = record {
  w = 1_200;
  base_w = 500;
  step = 500;
  base_rate = 4_000;
  additional_rate = 2_000;
  fuel = 100_000;
  collectible = 99_900;
  cod_rate = 20_000;
  cod_flat = 3_000;
  declared = 99_900;
  gst = 180_000;
  value = λ _. 500;
}

lane-Reads : Reads tariff lane slab_b numbers
unfolding kg_to_grams rupees_to_paise rate_to_millionths of_scaled trim is_space decimal_groups
    text_eq digits_value scaled
lane-Reads = record {
  w_reads = refl;
  base_w_reads = refl;
  step_reads = refl;
  base_rate_reads = refl;
  additional_rate_reads = refl;
  fuel_reads = refl;
  collectible_reads = refl;
  cod_rate_reads = refl;
  cod_flat_reads = refl;
  declared_reads = refl;
  gst_reads = refl;
  rows_read = (refl, tt);
}

compute_freight_lem_example :
    compute_freight tariff lane ≡ ok (priceable (price_of tariff lane numbers))
unfolding zone_eq
compute_freight_lem_example =
    compute_freight_lem tariff lane zone_b slab_b numbers refl refl lane-Reads (omega arith)

lane_priced : compute_freight tariff lane ≡ ok (priceable (price_of tariff lane numbers))
unfolding zone_eq
lane_priced =
    compute_freight_lem tariff lane zone_b slab_b numbers refl refl lane-Reads (omega arith)

compute_freight-Priced_example : Priced tariff lane (priceable (price_of tariff lane numbers))
compute_freight-Priced_example =
    compute_freight-Priced tariff lane (priceable (price_of tariff lane numbers)) lane_priced

abbrev rto_rule : RtoRule
rto_rule = record { basis = percent_of_forward; pct = some (codes "0.500000") }

abbrev snapshot : RtoSnapshot
snapshot = record {
  f5_base_freight = codes "80.00";
  billable_weight_kg = codes "1.200";
  declared_value = codes "999.00";
}

abbrev rto_tariff : RtoTariff
rto_tariff = record {
  fuel_pct = codes "0.100000";
  gst_pct = codes "0.180000";
  taxable_components = codes "F-5" ∷ [];
  components = [];
}

-- Half of 80.00 is the base; 10% fuel; 18% GST on the base alone.
abbrev rto_expected : RtoExpectation
rto_expected =
    expected (paise_to_rupees (pos 4_000))
      (rto_breakdown rto_tariff.taxable_components (pos 4_000) (pos 400) [] (pos 720))

rto_computed : compute_rto_expectation (some rto_rule) snapshot rto_tariff ≡ ok rto_expected
unfolding compute_rto_expectation kg_to_grams rupees_to_paise rate_to_millionths of_scaled trim
    is_space decimal_groups text_eq digits_value scaled apply_rate half_up ◌*ℤ◌ ◌+ℤ◌ sum
    rto_taxable_base price_rows sort_by
rto_computed = refl

compute_rto_expectation-Expects_example : Expects (some rto_rule) snapshot rto_expected
compute_rto_expectation-Expects_example =
    compute_rto_expectation-Expects (some rto_rule) snapshot rto_tariff rto_expected rto_computed

abbrev parcel : WeightTerms
parcel = record {
  dead_weight_kg = codes "1.630";
  length_cm = codes "20.00";
  width_cm = codes "20.00";
  height_cm = codes "25.00";
  divisor = some (codes "5000.0000");
  min_billable_kg = some (codes "0.500");
  increment_kg = some (codes "0.500");
}

parcel_reads :
    WeightReads parcel
      (codes "5000.0000")
      (codes "0.500")
      (codes "0.500")
      2_000
      2_000
      2_500
      50_000_000
      1_630
      500
      500
unfolding kg_to_grams cm_to_hundredths divisor_to_ten_thousandths of_scaled trim is_space
    decimal_groups digits_value scaled
parcel_reads = record {
  length_reads = refl;
  width_reads = refl;
  height_reads = refl;
  dead_reads = refl;
  divisor_present = refl;
  divisor_reads = refl;
  min_present = refl;
  min_reads = refl;
  increment_present = refl;
  increment_reads = refl;
}

compute_weights_lem_example :
    Returns (Weighed (2_000 * 2_000 * 2_500) 50_000_000 1_630 500 500) (compute_weights parcel)
compute_weights_lem_example =
    compute_weights_lem parcel (codes "5000.0000") (codes "0.500") (codes "0.500") 2_000 2_000 2_500
      50_000_000 1_630 500 500 parcel_reads (omega arith) (omega arith)

abbrev parcel_weights : WeightBreakdown
parcel_weights = record {
  volumetric_weight_kg = codes "2.000";
  raw_chargeable_kg = codes "2.000";
  billable_weight_kg = codes "2.000";
}

parcel_weighed : compute_weights parcel ≡ ok (some parcel_weights)
unfolding compute_weights volumetric_weight_kg raw_chargeable_weight_kg billable_weight_kg
    kg_to_grams cm_to_hundredths divisor_to_ten_thousandths of_scaled trim is_space decimal_groups
    digits_value scaled div_round_half_up half_up ceil_div grams_to_kg quot rem to_text
parcel_weighed = refl

compute_weights_guards_example :
    NonzeroText divisor_to_ten_thousandths parcel.divisor
    × (parcel.min_billable_kg ≢ none)
    × NonzeroText kg_to_grams parcel.increment_kg
compute_weights_guards_example = compute_weights_guards parcel parcel_weights parcel_weighed

abbrev mugs : DeadWeightLineInput
mugs = record {
  order_line_id = some (codes "1");
  sku = some (codes "MUG");
  quantity = pos 3;
  sku_override_weight_kg = some (codes " ");
  line_override_weight_kg = none;
  shopify_weight_kg = some (codes "0.400");
}

mugs_resolve : resolve_per_unit mugs ≡ ok (400, shopify)
unfolding resolve_per_unit kg_to_grams of_scaled trim is_space decimal_groups digits_value scaled
mugs_resolve = refl

resolve_per_unit_lem_example : Resolves mugs (400, shopify)
resolve_per_unit_lem_example = resolve_per_unit_lem mugs (400, shopify) mugs_resolve

reads_tare : kg_to_grams (codes "0.130") ≡ ok 130
unfolding kg_to_grams of_scaled trim is_space decimal_groups digits_value scaled
reads_tare = refl

reads_default : kg_to_grams (codes "0.5") ≡ ok 500
unfolding kg_to_grams of_scaled trim is_space decimal_groups digits_value scaled
reads_default = refl

derive_dead_weight_lem_example :
    Returns
      (λ r.
        (kg_to_grams r.dead_weight_kg ≡ ok (dead_weight (total_grams ((400, 3) ∷ [])) 130 500))
        × (kg_to_grams r.line_weight_total_kg ≡ ok (total_grams ((400, 3) ∷ [])))
        × (kg_to_grams r.tare_kg ≡ ok 130)
        × (r.used_default_parcel_weight ≡ (total_grams ((400, 3) ∷ []) == 0)))
      (derive_dead_weight (mugs ∷ []) (codes "0.130") (codes "0.5"))
derive_dead_weight_lem_example =
    derive_dead_weight_lem (mugs ∷ []) ((400, 3) ∷ []) (codes "0.130") (codes "0.5") 130 500
      ((shopify, mugs_resolve, refl), tt) reads_tare reads_default
