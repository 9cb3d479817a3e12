-- ===== src/RateEngine/Rto.antt =====
-- src/modules/rate-engine/pricing.ts, the charge for a return to origin (F-12).
pub mod Totals
use jsyxi_shipping.Prelude.{ℕ, Bool, false, Option, none, some, List, [], ◌∷◌, ◌++◌, Text, codes}
use jsyxi_shipping.Prelude.Int.{pos, ◌+ℤ◌, sum}
use jsyxi_shipping.Result.{Result, ok, ◌>>=◌}
use jsyxi_shipping.Money.{Paise, rupees_to_paise, paise_to_rupees, rate_to_millionths, apply_rate}
use jsyxi_shipping.Derivation.Weight.{kg_to_grams}
use jsyxi_shipping.RateEngine.Freight.{
  ComponentRowInput, FreightBreakdown, PricedRow, price_rows, amounts, taxed, taxed_amounts, has,
  line, row_lines,
}

pub data RtoBasis : Type 0 where
  same_as_forward percent_of_forward : RtoBasis

pub record RtoRule : Type 0 where
  pub basis : RtoBasis
  pub pct : Option Text

pub data NoExpectationReason : Type 0 where
  no_rto_rule rto_pct_missing : NoExpectationReason

pub data RtoExpectation : Type 0 where
  expected : Text → FreightBreakdown → RtoExpectation
  no_expectation : NoExpectationReason → RtoExpectation

pub record RtoSnapshot : Type 0 where
  pub f5_base_freight : Text
  pub billable_weight_kg : Text
  pub declared_value : Text

pub record RtoTariff : Type 0 where
  pub fuel_pct : Text
  pub gst_pct : Text
  pub taxable_components : List Text
  pub components : List ComponentRowInput

-- The base of the charge, `none` where the percentage is missing.
unfoldable pub rto_base : RtoBasis → Option Text → Paise → Result (Option Paise)
rto_base same_as_forward pct forward_f5 = ok (some forward_f5)
rto_base percent_of_forward none forward_f5 = ok none
rto_base percent_of_forward (some pct) forward_f5 = do
  rate ← rate_to_millionths pct
  base ← apply_rate forward_f5 rate
  ok (some base)

unfoldable pub rto_taxable_base : List Text → Paise → Paise → List PricedRow → Paise
rto_taxable_base names base fuel rows =
    taxed (has names (codes "F-5")) base
    +ℤ taxed (has names (codes "F-6")) fuel
    +ℤ sum (taxed_amounts (has names (codes "F-8")) rows)

unfoldable pub rto_breakdown : List Text → Paise → Paise → List PricedRow → Paise → FreightBreakdown
rto_breakdown names base fuel rows gst =
    let other = sum (amounts rows) in
    let subtotal = base +ℤ fuel +ℤ other in
    record {
      f5_base_freight = paise_to_rupees base;
      f6_fuel = paise_to_rupees fuel;
      f7_cod = codes "0.00";
      f8_other = paise_to_rupees other;
      f9_pre_tax_subtotal = paise_to_rupees subtotal;
      f10_gst = paise_to_rupees gst;
      f11_total = paise_to_rupees (subtotal +ℤ gst);
      components =
          line (codes "F-12") (codes "RTO base charge") base (has names (codes "F-5"))
          ∷ line (codes "F-6") (codes "Fuel surcharge") fuel (has names (codes "F-6"))
          ∷ (row_lines (has names (codes "F-8")) rows
              ++ line (codes "F-10") (codes "GST") gst false ∷ []);
    }

-- `computeRtoExpectation` behind its guards.
unfoldable pub price_rto : RtoSnapshot → RtoTariff → Option Paise → Result RtoExpectation
price_rto snapshot tariff none = ok (no_expectation rto_pct_missing)
price_rto snapshot tariff (some base) = do
  rate ← rate_to_millionths tariff.fuel_pct
  fuel ← apply_rate base rate
  w ← kg_to_grams snapshot.billable_weight_kg
  declared ← rupees_to_paise snapshot.declared_value
  rows ←
      price_rows tariff.components
        (record { f5 = base; f6 = fuel; f7 = pos 0; billable_grams = w; declared_value = declared })
  gst_rate ← rate_to_millionths tariff.gst_pct
  gst ← apply_rate (rto_taxable_base tariff.taxable_components base fuel rows) gst_rate
  ok (expected (paise_to_rupees base) (rto_breakdown tariff.taxable_components base fuel rows gst))

unfoldable pub compute_rto_expectation :
    Option RtoRule → RtoSnapshot → RtoTariff → Result RtoExpectation
unfolding price_rto rto_base
compute_rto_expectation none snapshot tariff = ok (no_expectation no_rto_rule)
compute_rto_expectation (some rule) snapshot tariff = do
  forward_f5 ← rupees_to_paise snapshot.f5_base_freight
  base ← rto_base rule.basis rule.pct forward_f5
  price_rto snapshot tariff base
