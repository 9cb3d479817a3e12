-- ===== src/RateEngine/Freight/Totals.antt =====
-- A freight total is the sum of its rounded component lines.
use jsyxi_shipping.Prelude.{
  ◌≡◌, refl, subst, ◌⊎◌, Bool, false, List, [], ◌∷◌, ◌++◌, Text, codes, some, none, Option, inl,
  inr,
}
use jsyxi_shipping.Prelude.Int.{◌+ℤ◌, sum, sum-nil, sum-cons, sum-append, int_laws}
use jsyxi_shipping.Result.{Result, ok, traverse, ◌>>=◌, >>=-eq-ok, ok-injective}
use jsyxi_shipping.Money.{Paise, rupees_to_paise, rate_to_millionths, apply_rate}
use jsyxi_shipping.Money.RoundTrip.{rupees_to_paise-paise_to_rupees}
use jsyxi_shipping.Derivation.Weight.{kg_to_grams}
use jsyxi_shipping.RateEngine.Freight.{
  TariffInput, FreightArgs, FreightBreakdown, PricedComponent, PricedRow, SlabInput, ZoneCode,
  priceable, FreightResult, line, row_lines, amounts, breakdown, has, compute_freight, price_zone,
  price_found, price_slab, base_freight, cod_charge, price_rows, find_slab, taxable_base,
  unpriceable, zone_not_matched, slab_missing,
}

-- The sum of the amounts that the component lines show.
unfoldable pub component_sum : List PricedComponent → Result Paise
component_sum components = do
  shown ← traverse (λ (c : PricedComponent). rupees_to_paise c.amount) components
  ok (sum shown)

abbrev pub shown_amounts : List PricedComponent → Result (List Paise)
shown_amounts = traverse (λ (c : PricedComponent). rupees_to_paise c.amount)

pub shown-row_lines :
    (test : Bool) (rows : List PricedRow) (code label : Text) (last : Paise) (taxable : Bool)
    → shown_amounts (row_lines test rows ++ line code label last taxable ∷ [])
      ≡ ok (amounts rows ++ last ∷ [])
shown-row_lines test [] code label last taxable = rw (rupees_to_paise-paise_to_rupees last)
shown-row_lines test (r ∷ rows) code label last taxable =
    rw (rupees_to_paise-paise_to_rupees r.1, shown-row_lines test rows code label last taxable)

-- The texts of a breakdown read as amounts that add up.
pub record AddsUp (b : FreightBreakdown) (f5 f6 f7 f8 f10 : Paise) : Type 0 where
  pub base : rupees_to_paise b.f5_base_freight ≡ ok f5
  pub fuel : rupees_to_paise b.f6_fuel ≡ ok f6
  pub cod : rupees_to_paise b.f7_cod ≡ ok f7
  pub other : rupees_to_paise b.f8_other ≡ ok f8
  pub subtotal : rupees_to_paise b.f9_pre_tax_subtotal ≡ ok (f5 +ℤ f6 +ℤ f7 +ℤ f8)
  pub gst : rupees_to_paise b.f10_gst ≡ ok f10
  pub total : rupees_to_paise b.f11_total ≡ ok (f5 +ℤ f6 +ℤ f7 +ℤ f8 +ℤ f10)
  pub lines : component_sum b.components ≡ rupees_to_paise b.f11_total

sum_lines :
    (f5 f6 f7 f10 : Paise) (rs : List Paise)
    → sum (f5 ∷ f6 ∷ f7 ∷ (rs ++ f10 ∷ [])) ≡ f5 +ℤ f6 +ℤ f7 +ℤ sum rs +ℤ f10
sum_lines f5 f6 f7 f10 rs =
    rw
      (
        sum-cons f5 (f6 ∷ f7 ∷ (rs ++ f10 ∷ [])),
        sum-cons f6 (f7 ∷ (rs ++ f10 ∷ [])),
        sum-cons f7 (rs ++ f10 ∷ []),
        sum-append rs (f10 ∷ []),
        sum-cons f10 [],
        sum-nil,
      )
      (omega int_laws)

pub breakdown-AddsUp :
    (names : List Text) (f5 f6 f7 : Paise) (rows : List PricedRow) (f10 : Paise)
    → AddsUp (breakdown names f5 f6 f7 rows f10) f5 f6 f7 (sum (amounts rows)) f10
unfolding breakdown component_sum
breakdown-AddsUp names f5 f6 f7 rows f10 =
    let f8 = sum (amounts rows) in
    record {
      base = rupees_to_paise-paise_to_rupees f5;
      fuel = rupees_to_paise-paise_to_rupees f6;
      cod = rupees_to_paise-paise_to_rupees f7;
      other = rupees_to_paise-paise_to_rupees f8;
      subtotal = rupees_to_paise-paise_to_rupees (f5 +ℤ f6 +ℤ f7 +ℤ f8);
      gst = rupees_to_paise-paise_to_rupees f10;
      total = rupees_to_paise-paise_to_rupees (f5 +ℤ f6 +ℤ f7 +ℤ f8 +ℤ f10);
      lines = rw (
        rupees_to_paise-paise_to_rupees f5,
        rupees_to_paise-paise_to_rupees f6,
        rupees_to_paise-paise_to_rupees f7,
        shown-row_lines (has names (codes "F-8")) rows (codes "F-10") (codes "GST") f10 false,
        rupees_to_paise-paise_to_rupees (f5 +ℤ f6 +ℤ f7 +ℤ f8 +ℤ f10),
        sum_lines f5 f6 f7 f10 (amounts rows),
      );
    }

price_slab-AddsUp :
    (tariff : TariffInput) (args : FreightArgs) (slab : SlabInput) (b : FreightBreakdown)
    → price_slab tariff args slab ≡ ok b
    → (f5 : Paise) × (f6 : Paise) × (f7 : Paise) × (f8 : Paise) × (f10 : Paise) × AddsUp b f5 f6 f7
        f8 f10
unfolding price_slab
price_slab-AddsUp tariff args slab b e =
    let (w, _, e1) = >>=-eq-ok (kg_to_grams args.billable_weight_kg) _ e in
    let (f5, _, e2) = >>=-eq-ok (base_freight slab w) _ e1 in
    let (fuel, _, e3) = >>=-eq-ok (rate_to_millionths tariff.fuel_pct) _ e2 in
    let (f6, _, e4) = >>=-eq-ok (apply_rate f5 fuel) _ e3 in
    let (c, _, e5) = >>=-eq-ok (rupees_to_paise args.collectible) _ e4 in
    let (f7, _, e6) = >>=-eq-ok (cod_charge tariff args.payment_mode c) _ e5 in
    let (d, _, e7) = >>=-eq-ok (rupees_to_paise args.declared_value) _ e6 in
    let (rows, _, e8) = >>=-eq-ok (price_rows tariff.components _) _ e7 in
    let (gst, _, e9) = >>=-eq-ok (rate_to_millionths tariff.gst_pct) _ e8 in
    let (f10, _, e10) =
      >>=-eq-ok (apply_rate (taxable_base tariff.taxable_components f5 f6 f7 rows) gst) _ e9 in
    (
      f5,
      f6,
      f7,
      sum (amounts rows),
      f10,
      subst (λ x. AddsUp x f5 f6 f7 (sum (amounts rows)) f10) (ok-injective e10)
          (breakdown-AddsUp tariff.taxable_components f5 f6 f7 rows f10),
    )

-- What `computeFreight` returns: a breakdown that adds up for a zone with a slab, and no price for a
-- lane without a zone, or whose zone has no slab.
abbrev pub Priced : TariffInput → FreightArgs → FreightResult → Type 0
Priced tariff args (priceable b) =
    (zone : ZoneCode) × (slab : SlabInput) × (args.zone ≡ some zone)
    × (find_slab zone tariff.slabs ≡ some slab)
    × ((f5 : Paise) × (f6 : Paise) × (f7 : Paise) × (f8 : Paise) × (f10 : Paise) × AddsUp b f5 f6 f7
          f8 f10)
Priced tariff args (unpriceable reason) =
    ((args.zone ≡ none) × (reason ≡ zone_not_matched))
    ⊎ ((zone : ZoneCode) × (args.zone ≡ some zone)
        × (find_slab zone tariff.slabs ≡ none)
        × (reason ≡ slab_missing))

price_found-Priced :
    (tariff : TariffInput) (args : FreightArgs) (zone : ZoneCode) (r : FreightResult)
    → args.zone ≡ some zone
    → (found : Option SlabInput) → find_slab zone tariff.slabs ≡ found
    → price_found tariff args found ≡ ok r
    → Priced tariff args r
unfolding price_found
price_found-Priced tariff args zone r z none f e =
    subst (Priced tariff args) (ok-injective e) (inr (zone, z, f, refl))
price_found-Priced tariff args zone r z (some slab) f e =
    let (b, priced, e1) = >>=-eq-ok (price_slab tariff args slab) _ e in
    subst (Priced tariff args) (ok-injective e1)
      (zone, slab, z, f, price_slab-AddsUp tariff args slab b priced)

price_zone-Priced :
    (tariff : TariffInput) (args : FreightArgs) (zone : Option ZoneCode) (r : FreightResult)
    → args.zone ≡ zone
    → price_zone tariff args zone ≡ ok r
    → Priced tariff args r
unfolding price_zone
price_zone-Priced tariff args none r z e =
    subst (Priced tariff args) (ok-injective e) (inl (z, refl))
price_zone-Priced tariff args (some zone) r z e =
    price_found-Priced tariff args zone r z (find_slab zone tariff.slabs) refl e

-- Whatever `computeFreight` returns: a price is for a zone that has a slab, its texts read as
-- amounts, the subtotal is F-5 + F-6 + F-7 + F-8, the total is the subtotal and the GST, and the
-- component lines, read one by one, sum to exactly the total; a lane without a zone or a slab gets
-- the reason and no price.
pub compute_freight-Priced :
    (tariff : TariffInput) (args : FreightArgs) (r : FreightResult)
    → compute_freight tariff args ≡ ok r
    → Priced tariff args r
unfolding compute_freight
compute_freight-Priced tariff args r e = price_zone-Priced tariff args args.zone r refl e
