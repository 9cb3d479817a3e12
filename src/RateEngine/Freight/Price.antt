-- ===== src/RateEngine/Freight/Price.antt =====
-- `computeFreight` on a readable tariff returns the price that its definition over naturals gives.
use jsyxi_shipping.Prelude.{ℕ, suc, ◌-◌, ◌∙◌, ◌<◌, ◌≡◌, ap, List, some, arith, All}
use jsyxi_shipping.Prelude.Int.{pos}
use jsyxi_shipping.Prelude.Sort.{sort_by}
use jsyxi_shipping.Result.{ok}
use jsyxi_shipping.Money.{rupees_to_paise, rate_to_millionths}
use jsyxi_shipping.Money.Rounding.{apply_rate-pos}
use jsyxi_shipping.Derivation.Weight.{kg_to_grams}
use jsyxi_shipping.RateEngine.Freight.{
  TariffInput, FreightArgs, SlabInput, ComponentRowInput, ZoneCode, FreightBreakdown, priceable,
  find_slab, breakdown, price_slab, price_zone, price_found, compute_freight,
}
use jsyxi_shipping.RateEngine.Freight.Terms.{
  ValueReads, share, base_price, cod_price, priced, tax_base, base_freight_lem, cod_charge_lem,
  price_rows_lem, taxable_base_lem,
}

-- The numbers that the texts of a slab, a tariff and a lane read as: grams, paise, millionths.
pub record Numbers : Type 0 where
  pub w : ℕ
  pub base_w : ℕ
  pub step : ℕ
  pub base_rate : ℕ
  pub additional_rate : ℕ
  pub fuel : ℕ
  pub collectible : ℕ
  pub cod_rate : ℕ
  pub cod_flat : ℕ
  pub declared : ℕ
  pub gst : ℕ
  pub value : ComponentRowInput → ℕ

pub record Reads (tariff : TariffInput) (args : FreightArgs) (slab : SlabInput) (n : Numbers)
    : Type 0 where
  pub w_reads : kg_to_grams args.billable_weight_kg ≡ ok n.w
  pub base_w_reads : kg_to_grams slab.base_weight_kg ≡ ok n.base_w
  pub step_reads : kg_to_grams slab.additional_step_kg ≡ ok n.step
  pub base_rate_reads : rupees_to_paise slab.base_rate ≡ ok (pos n.base_rate)
  pub additional_rate_reads : rupees_to_paise slab.additional_rate ≡ ok (pos n.additional_rate)
  pub fuel_reads : rate_to_millionths tariff.fuel_pct ≡ ok n.fuel
  pub collectible_reads : rupees_to_paise args.collectible ≡ ok (pos n.collectible)
  pub cod_rate_reads : rate_to_millionths tariff.cod_pct ≡ ok n.cod_rate
  pub cod_flat_reads : rupees_to_paise tariff.cod_flat ≡ ok (pos n.cod_flat)
  pub declared_reads : rupees_to_paise args.declared_value ≡ ok (pos n.declared)
  pub gst_reads : rate_to_millionths tariff.gst_pct ≡ ok n.gst
  pub rows_read : All (λ row. ValueReads row.basis row.value (n.value row)) tariff.components

-- F-5, F-6, F-7 and F-10 by their definitions, and the breakdown of these amounts.
abbrev pub f5_of : Numbers → ℕ
f5_of n = base_price n.w n.base_w n.step n.base_rate n.additional_rate

abbrev pub f6_of : Numbers → ℕ
f6_of n = share (f5_of n) n.fuel

abbrev pub f7_of : FreightArgs → Numbers → ℕ
f7_of args n = cod_price args.payment_mode n.collectible n.cod_rate n.cod_flat

abbrev pub ordered : TariffInput → List ComponentRowInput
ordered tariff = sort_by (λ (row : ComponentRowInput). row.position) tariff.components

abbrev pub f10_of : TariffInput → FreightArgs → Numbers → ℕ
f10_of tariff args n =
    share
      (tax_base n.value (f5_of n) (f6_of n) (f7_of args n) n.w n.declared tariff.taxable_components
        (ordered tariff))
      n.gst

abbrev pub price_of : TariffInput → FreightArgs → Numbers → FreightBreakdown
price_of tariff args n =
    breakdown tariff.taxable_components (pos (f5_of n)) (pos (f6_of n)) (pos (f7_of args n))
      (priced n.value (f5_of n) (f6_of n) (f7_of args n) n.w n.declared (ordered tariff))
      (pos (f10_of tariff args n))

price_slab_lem :
    (tariff : TariffInput) (args : FreightArgs) (slab : SlabInput) (n : Numbers) (step : ℕ)
    → n.step ≡ suc step
    → Reads tariff args slab n
    → price_slab tariff args slab ≡ ok (price_of tariff args n)
unfolding price_slab
price_slab_lem tariff args slab n step e r = rw (
  r.w_reads,
  base_freight_lem slab n.w n.base_w step n.base_rate n.additional_rate r.base_w_reads
      (r.step_reads ∙ ap ok e) r.base_rate_reads r.additional_rate_reads,
  ← e,
  r.fuel_reads,
  apply_rate-pos (f5_of n) n.fuel,
  r.collectible_reads,
  cod_charge_lem tariff args.payment_mode n.collectible n.cod_rate n.cod_flat r.cod_rate_reads
      r.cod_flat_reads,
  r.declared_reads,
  price_rows_lem n.value (f5_of n) (f6_of n) (f7_of args n) n.w n.declared tariff.components
      r.rows_read,
  r.gst_reads,
  taxable_base_lem n.value (f5_of n) (f6_of n) (f7_of args n) n.w n.declared
      tariff.taxable_components (ordered tariff),
  apply_rate-pos
      (tax_base n.value (f5_of n) (f6_of n) (f7_of args n) n.w n.declared tariff.taxable_components
        (ordered tariff))
      n.gst,
)

-- Where the lane has a zone with a slab, the slab's step is not zero, and every text reads as a
-- number that is not negative, `computeFreight` returns the price: the base rate and the additional
-- rate for each step begun, the fuel share, the COD charge, each surcharge by its basis in position
-- order, and the GST share of the taxable amounts, each rounded half up when it is computed.
pub compute_freight_lem :
    (tariff : TariffInput) (args : FreightArgs) (zone : ZoneCode) (slab : SlabInput) (n : Numbers)
    → args.zone ≡ some zone
    → find_slab zone tariff.slabs ≡ some slab
    → Reads tariff args slab n
    → 0 < n.step
    → compute_freight tariff args ≡ ok (priceable (price_of tariff args n))
unfolding compute_freight
compute_freight_lem tariff args zone slab n hz hs r positive =
    let e : n.step ≡ suc (n.step - 1) = omega arith in
    ap (price_zone tariff args) hz
    ∙ ap (price_found tariff args) hs
    ∙ rw (price_slab_lem tariff args slab n (n.step - 1) e r)
