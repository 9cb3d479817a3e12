-- ===== src/RateEngine/Freight.antt =====
-- src/modules/rate-engine/pricing.ts, freight components F-5 to F-11 of a lane. A position is a natural
-- number; the sets of taxable component names are lists.
pub mod Totals
pub mod Terms
pub mod Price
use jsyxi_shipping.Prelude.{
  ℕ, ◌+◌, ◌-◌, Bool, true, false, not, ◌&&◌, ◌||◌, Option, none, some, List, [], ◌∷◌, ◌++◌, map,
  Text, codes, text_eq, any, find, ltb, if◌then◌else◌,
}
use jsyxi_shipping.Prelude.Int.{ℤ, pos, ltb_ℤ, leb_ℤ, ◌+ℤ◌, ◌*ℤ◌, sum}
use jsyxi_shipping.Prelude.Sort.{sort_by}
use jsyxi_shipping.Result.{Result, ok, traverse, ◌>>=◌}
use jsyxi_shipping.Money.{
  Paise, rupees_to_paise, paise_to_rupees, rate_to_millionths, div_round_half_up, apply_rate,
  ceil_div,
}
use jsyxi_shipping.Derivation.Weight.{kg_to_grams}

pub data ZoneCode : Type 0 where
  zone_a zone_b zone_c zone_d zone_e : ZoneCode

pub data ComponentBasis : Type 0 where
  flat percent_of_base_freight percent_of_pre_tax_subtotal : ComponentBasis
  per_kg_billable percent_of_declared_value : ComponentBasis

pub data UnpriceableReason : Type 0 where
  rate_card_missing rate_card_version_missing service_version_missing : UnpriceableReason
  divisor_missing origin_missing zone_not_matched slab_missing : UnpriceableReason

-- adapter.enum-types.ts
pub data PaymentMode : Type 0 where
  prepaid cod unresolved : PaymentMode

pub record SlabInput : Type 0 where
  pub zone : ZoneCode
  pub base_weight_kg : Text
  pub base_rate : Text
  pub additional_step_kg : Text
  pub additional_rate : Text

pub record ComponentRowInput : Type 0 where
  pub code : Text
  pub label : Text
  pub basis : ComponentBasis
  pub value : Text
  pub is_taxable : Bool
  pub position : ℕ

pub record TariffInput : Type 0 where
  pub fuel_pct : Text
  pub cod_flat : Text
  pub cod_pct : Text
  pub gst_pct : Text
  pub taxable_components : List Text
  pub slabs : List SlabInput
  pub components : List ComponentRowInput

pub record PricedComponent : Type 0 where
  pub code : Text
  pub label : Text
  pub amount : Text
  pub taxable : Bool

pub record FreightBreakdown : Type 0 where
  pub f5_base_freight : Text
  pub f6_fuel : Text
  pub f7_cod : Text
  pub f8_other : Text
  pub f9_pre_tax_subtotal : Text
  pub f10_gst : Text
  pub f11_total : Text
  pub components : List PricedComponent

pub data FreightResult : Type 0 where
  priceable : FreightBreakdown → FreightResult
  unpriceable : UnpriceableReason → FreightResult

pub record FreightArgs : Type 0 where
  pub zone : Option ZoneCode
  pub billable_weight_kg : Text
  pub payment_mode : PaymentMode
  pub collectible : Text
  pub declared_value : Text

pub record SurchargeBases : Type 0 where
  pub f5 : Paise
  pub f6 : Paise
  pub f7 : Paise
  pub billable_grams : ℕ
  pub declared_value : Paise

unfoldable pub surcharge_of : ComponentBasis → Text → SurchargeBases → Result Paise
surcharge_of flat value bases = rupees_to_paise value
surcharge_of percent_of_base_freight value bases = do
  rate ← rate_to_millionths value
  apply_rate bases.f5 rate
surcharge_of percent_of_pre_tax_subtotal value bases = do
  rate ← rate_to_millionths value
  apply_rate (bases.f5 +ℤ bases.f6 +ℤ bases.f7) rate
surcharge_of per_kg_billable value bases = do
  per_kg ← rupees_to_paise value
  div_round_half_up (per_kg *ℤ pos bases.billable_grams) (pos 1000)
surcharge_of percent_of_declared_value value bases = do
  rate ← rate_to_millionths value
  apply_rate bases.declared_value rate

unfoldable pub surcharge_amount : ComponentRowInput → SurchargeBases → Result Paise
unfolding surcharge_of
surcharge_amount row bases = surcharge_of row.basis row.value bases

-- A surcharge row beside its amount: `rows[i]` and `rowAmounts[i]`.
abbrev pub PricedRow : Type 0
PricedRow = ComponentRowInput × Paise

unfoldable pub price_rows : List ComponentRowInput → SurchargeBases → Result (List PricedRow)
price_rows components bases =
    traverse (λ row. do amount ← surcharge_amount row bases; ok (row, amount))
      (sort_by (λ (row : ComponentRowInput). row.position) components)

abbrev pub amounts : List PricedRow → List Paise
amounts rows = map (λ r. r.1) rows

abbrev pub has : List Text → Text → Bool
has names name = any (text_eq name) names

abbrev pub taxed : Bool → Paise → Paise
taxed test amount = if test then amount else pos 0

-- The rows that count for tax: `taxF8 && rows[i].isTaxable ? a : 0n`.
abbrev pub taxed_amounts : Bool → List PricedRow → List Paise
taxed_amounts tax_f8 rows = map (λ r. taxed (tax_f8 && r.0.is_taxable) r.1) rows

unfoldable pub taxable_base : List Text → Paise → Paise → Paise → List PricedRow → Paise
taxable_base names f5 f6 f7 rows =
    taxed (has names (codes "F-5")) f5
    +ℤ taxed (has names (codes "F-6")) f6
    +ℤ taxed (has names (codes "F-7")) f7
    +ℤ sum (taxed_amounts (has names (codes "F-8")) rows)

abbrev pub line : Text → Text → Paise → Bool → PricedComponent
line code label amount taxable = record {
  code = code;
  label = label;
  amount = paise_to_rupees amount;
  taxable = taxable;
}

abbrev pub row_lines : Bool → List PricedRow → List PricedComponent
row_lines tax_f8 rows = map (λ r. line r.0.code r.0.label r.1 (tax_f8 && r.0.is_taxable)) rows

-- The lines and totals that `computeFreight` returns for its amounts.
unfoldable pub breakdown :
    List Text → Paise → Paise → Paise → List PricedRow → Paise → FreightBreakdown
breakdown names f5 f6 f7 rows f10 =
    let f8 = sum (amounts rows) in
    let f9 = f5 +ℤ f6 +ℤ f7 +ℤ f8 in
    record {
      f5_base_freight = paise_to_rupees f5;
      f6_fuel = paise_to_rupees f6;
      f7_cod = paise_to_rupees f7;
      f8_other = paise_to_rupees f8;
      f9_pre_tax_subtotal = paise_to_rupees f9;
      f10_gst = paise_to_rupees f10;
      f11_total = paise_to_rupees (f9 +ℤ f10);
      components =
          line (codes "F-5") (codes "Base freight") f5 (has names (codes "F-5"))
          ∷ line (codes "F-6") (codes "Fuel surcharge") f6 (has names (codes "F-6"))
          ∷ line (codes "F-7") (codes "COD charge") f7 (has names (codes "F-7"))
          ∷ (row_lines (has names (codes "F-8")) rows
              ++ line (codes "F-10") (codes "GST") f10 false ∷ []);
    }

-- F-5: the base rate and the additional steps, rounded up.
unfoldable pub base_freight : SlabInput → ℕ → Result Paise
base_freight slab w = do
  base_w ← kg_to_grams slab.base_weight_kg
  step ← kg_to_grams slab.additional_step_kg
  additional_steps ← if ltb base_w w then ceil_div (pos (w - base_w)) (pos step) else ok (pos 0)
  base_rate ← rupees_to_paise slab.base_rate
  additional_rate ← rupees_to_paise slab.additional_rate
  ok (base_rate +ℤ additional_steps *ℤ additional_rate)

abbrev pub is_cod : PaymentMode → Bool
is_cod cod = true
is_cod _ = false

-- F-7: nothing unless COD with a collectible, else the larger of the flat fee and the percentage.
unfoldable pub cod_charge : TariffInput → PaymentMode → Paise → Result Paise
cod_charge tariff mode collectible =
    if not (is_cod mode) || leb_ℤ collectible (pos 0) then ok (pos 0) else do
      rate ← rate_to_millionths tariff.cod_pct
      pct ← apply_rate collectible rate
      flat_fee ← rupees_to_paise tariff.cod_flat
      ok (if ltb_ℤ flat_fee pct then pct else flat_fee)

unfoldable pub zone_eq : ZoneCode → ZoneCode → Bool
zone_eq zone_a zone_a = true
zone_eq zone_b zone_b = true
zone_eq zone_c zone_c = true
zone_eq zone_d zone_d = true
zone_eq zone_e zone_e = true
zone_eq _ _ = false

-- `computeFreight` behind its two guards.
unfoldable pub price_slab : TariffInput → FreightArgs → SlabInput → Result FreightBreakdown
price_slab tariff args slab = do
  w ← kg_to_grams args.billable_weight_kg
  f5 ← base_freight slab w
  fuel ← rate_to_millionths tariff.fuel_pct
  f6 ← apply_rate f5 fuel
  collectible ← rupees_to_paise args.collectible
  f7 ← cod_charge tariff args.payment_mode collectible
  declared ← rupees_to_paise args.declared_value
  rows ←
      price_rows tariff.components
        (record { f5 = f5; f6 = f6; f7 = f7; billable_grams = w; declared_value = declared })
  gst ← rate_to_millionths tariff.gst_pct
  f10 ← apply_rate (taxable_base tariff.taxable_components f5 f6 f7 rows) gst
  ok (breakdown tariff.taxable_components f5 f6 f7 rows f10)

abbrev pub find_slab : ZoneCode → List SlabInput → Option SlabInput
find_slab zone slabs = find (λ s. zone_eq s.zone zone) slabs

unfoldable pub price_found : TariffInput → FreightArgs → Option SlabInput → Result FreightResult
price_found tariff args none = ok (unpriceable slab_missing)
price_found tariff args (some slab) = do b ← price_slab tariff args slab; ok (priceable b)

unfoldable pub price_zone : TariffInput → FreightArgs → Option ZoneCode → Result FreightResult
unfolding price_found
price_zone tariff args none = ok (unpriceable zone_not_matched)
price_zone tariff args (some zone) = price_found tariff args (find_slab zone tariff.slabs)

unfoldable pub compute_freight : TariffInput → FreightArgs → Result FreightResult
unfolding price_zone
compute_freight tariff args = price_zone tariff args args.zone

-- F-23: the same function, at the invoiced weight.
abbrev pub audited_quote : TariffInput → FreightArgs → Result FreightResult
audited_quote = compute_freight
