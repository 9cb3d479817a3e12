-- ===== src/RateEngine/Freight/Terms.antt =====
-- Freight on a readable tariff: the price over natural numbers that `computeFreight` returns.
use jsyxi_shipping.Prelude.{
  ℕ, zero, suc, ◌+◌, ◌-◌, ◌*◌, ◌/◌, ◌≡◌, refl, ap, Bool, false, inl, inr, List, [], ◌∷◌, map, Text,
  arith, All, ◌&&◌, codes, ltb, ◌==◌, if◌then◌else◌, Bool-cases,
}
use jsyxi_shipping.Prelude.Int.{
  pos, pos_add, pos_mul, leb_ℤ, ltb_ℤ-pos, if_pos, sum, sum-nil, sum-cons, sum_ℕ,
}
use jsyxi_shipping.Prelude.Sort.{sort_by, All-sort_by}
use jsyxi_shipping.Result.{ok, traverse, ◌>>=◌}
use jsyxi_shipping.Money.{rupees_to_paise, rate_to_millionths, half_up, million}
use jsyxi_shipping.Money.Rounding.{apply_rate-pos, div_round_half_up-pos, ceil_div-pos}
use jsyxi_shipping.Derivation.Weight.{kg_to_grams}
use jsyxi_shipping.RateEngine.Freight.{
  TariffInput, SlabInput, ComponentRowInput, ComponentBasis, PaymentMode, cod, prepaid, unresolved,
  flat, percent_of_base_freight, percent_of_pre_tax_subtotal, per_kg_billable,
  percent_of_declared_value, SurchargeBases, surcharge_of, surcharge_amount, price_rows, PricedRow,
  base_freight, cod_charge, taxable_base, taxed_amounts, has,
}

-- What a surcharge row's value reads as: an amount of paise, or a rate in millionths.
abbrev pub ValueReads : ComponentBasis → Text → ℕ → Type 0
ValueReads flat value n = rupees_to_paise value ≡ ok (pos n)
ValueReads per_kg_billable value n = rupees_to_paise value ≡ ok (pos n)
ValueReads percent_of_base_freight value n = rate_to_millionths value ≡ ok n
ValueReads percent_of_pre_tax_subtotal value n = rate_to_millionths value ≡ ok n
ValueReads percent_of_declared_value value n = rate_to_millionths value ≡ ok n

-- A share of an amount, rounded half up to the paise.
abbrev pub share : ℕ → ℕ → ℕ
share amount rate = half_up (amount * rate) million

-- A surcharge by its basis.
abbrev pub surcharge : ComponentBasis → ℕ → (f5 f6 f7 grams declared : ℕ) → ℕ
surcharge flat n f5 f6 f7 grams declared = n
surcharge per_kg_billable n f5 f6 f7 grams declared = half_up (n * grams) 1000
surcharge percent_of_base_freight n f5 f6 f7 grams declared = share f5 n
surcharge percent_of_pre_tax_subtotal n f5 f6 f7 grams declared = share (f5 + f6 + f7) n
surcharge percent_of_declared_value n f5 f6 f7 grams declared = share declared n

surcharge_of_lem :
    (basis : ComponentBasis) (value : Text) (n f5 f6 f7 grams declared : ℕ)
    → ValueReads basis value n
    → surcharge_of basis value (record {
      f5 = pos f5;
      f6 = pos f6;
      f7 = pos f7;
      billable_grams = grams;
      declared_value = pos declared;
    })
      ≡ ok (pos (surcharge basis n f5 f6 f7 grams declared))
unfolding surcharge_of
surcharge_of_lem flat value n f5 f6 f7 grams declared h = h
surcharge_of_lem per_kg_billable value n f5 f6 f7 grams declared h =
    rw (h, pos_mul n grams) (div_round_half_up-pos (n * grams) 999)
surcharge_of_lem percent_of_base_freight value n f5 f6 f7 grams declared h =
    rw h (apply_rate-pos f5 n)
surcharge_of_lem percent_of_pre_tax_subtotal value n f5 f6 f7 grams declared h =
    rw (h, pos_add f5 f6, pos_add (f5 + f6) f7) (apply_rate-pos (f5 + f6 + f7) n)
surcharge_of_lem percent_of_declared_value value n f5 f6 f7 grams declared h =
    rw h (apply_rate-pos declared n)

-- F-5 by its definition: the base rate, and the additional rate for each step that is begun.
abbrev pub base_price : (w base_w step base_rate additional_rate : ℕ) → ℕ
base_price w base_w step base_rate additional_rate =
    base_rate + (if ltb base_w w then (w - base_w + (step - 1)) / step else 0) * additional_rate

-- F-7 by its definition.
abbrev pub cod_price : PaymentMode → (collectible rate flat_fee : ℕ) → ℕ
cod_price prepaid collectible rate flat_fee = 0
cod_price unresolved collectible rate flat_fee = 0
cod_price cod collectible rate flat_fee =
    if collectible == 0
    then 0
    else if ltb flat_fee (share collectible rate)
    then share collectible rate
    else flat_fee

pub base_freight_lem :
    (slab : SlabInput) (w base_w step base_rate additional_rate : ℕ)
    → kg_to_grams slab.base_weight_kg ≡ ok base_w
    → kg_to_grams slab.additional_step_kg ≡ ok (suc step)
    → rupees_to_paise slab.base_rate ≡ ok (pos base_rate)
    → rupees_to_paise slab.additional_rate ≡ ok (pos additional_rate)
    → base_freight slab w ≡ ok (pos (base_price w base_w (suc step) base_rate additional_rate))
unfolding base_freight
base_freight_lem slab w base_w step base_rate additional_rate hw hs hb ha =
    let same : suc step - 1 ≡ step = omega arith in
    elim (Bool-cases (ltb base_w w)) [
      | inl heavier ↦
          rw (hw, hs, heavier, ceil_div-pos (w - base_w) step, hb, ha, same, pos_mul, pos_add)
      | inr lighter ↦ rw (hw, hs, lighter, hb, ha, pos_mul, pos_add)
    ]

pub cod_charge_lem :
    (tariff : TariffInput) (mode : PaymentMode) (collectible rate flat_fee : ℕ)
    → rate_to_millionths tariff.cod_pct ≡ ok rate
    → rupees_to_paise tariff.cod_flat ≡ ok (pos flat_fee)
    → cod_charge tariff mode (pos collectible) ≡ ok (pos (cod_price mode collectible rate flat_fee))
unfolding cod_charge
cod_charge_lem tariff prepaid collectible rate flat_fee hr hf = refl
cod_charge_lem tariff unresolved collectible rate flat_fee hr hf = refl
cod_charge_lem tariff cod zero rate flat_fee hr hf = refl
cod_charge_lem tariff cod (suc c) rate flat_fee hr hf =
    let due : leb_ℤ (pos (suc c)) (pos 0) ≡ false = ground arith in
    let nonzero : (suc c == 0) ≡ false = ground arith in
    rw (due, nonzero, hr, apply_rate-pos (suc c) rate, hf, ltb_ℤ-pos flat_fee (share (suc c) rate))
      (ap ok (if_pos (ltb flat_fee (share (suc c) rate)) (share (suc c) rate) flat_fee))

module _ (value : ComponentRowInput → ℕ) (f5 f6 f7 grams declared : ℕ) where
  abbrev pub RowReads : ComponentRowInput → Type 0
  RowReads row = ValueReads row.basis row.value (value row)

  abbrev pub row_price : ComponentRowInput → ℕ
  row_price row = surcharge row.basis (value row) f5 f6 f7 grams declared

  -- The rows in position order, each beside its price.
  abbrev pub priced : List ComponentRowInput → List PricedRow
  priced rows = map (λ row. (row, pos (row_price row))) rows

  abbrev pub bases : SurchargeBases
  bases = record {
    f5 = pos f5;
    f6 = pos f6;
    f7 = pos f7;
    billable_grams = grams;
    declared_value = pos declared;
  }

  traverse-priced :
      (rows : List ComponentRowInput)
      → All RowReads rows
      → traverse (λ row. do amount ← surcharge_amount row bases; ok (row, amount)) rows
        ≡ ok (priced rows)
  unfolding surcharge_amount
  traverse-priced [] h = refl
  traverse-priced (row ∷ rows) (h, hs) = rw (
    surcharge_of_lem row.basis row.value (value row) f5 f6 f7 grams declared h,
    traverse-priced rows hs,
  )

  pub price_rows_lem :
      (components : List ComponentRowInput)
      → All RowReads components
      → price_rows components bases
        ≡ ok (priced (sort_by (λ (row : ComponentRowInput). row.position) components))
  unfolding price_rows
  price_rows_lem components h = traverse-priced _ (All-sort_by _ RowReads components h)

  abbrev pub counted : Bool → ComponentRowInput → ℕ
  counted tax_f8 row = if tax_f8 && row.is_taxable then row_price row else 0

  taxed_rows :
      (tax_f8 : Bool) (rows : List ComponentRowInput)
      → sum (taxed_amounts tax_f8 (priced rows)) ≡ pos (sum_ℕ (map (counted tax_f8) rows))
  taxed_rows tax_f8 [] = sum-nil
  taxed_rows tax_f8 (row ∷ rows) = rw (
    sum-cons _ (taxed_amounts tax_f8 (priced rows)),
    taxed_rows tax_f8 rows,
    if_pos (tax_f8 && row.is_taxable) (row_price row) 0,
    pos_add,
  )

  abbrev pub tax_base : List Text → List ComponentRowInput → ℕ
  tax_base names rows =
      (if has names (codes "F-5") then f5 else 0)
      + (if has names (codes "F-6") then f6 else 0)
      + (if has names (codes "F-7") then f7 else 0)
      + sum_ℕ (map (counted (has names (codes "F-8"))) rows)

  pub taxable_base_lem :
      (names : List Text) (rows : List ComponentRowInput)
      → taxable_base names (pos f5) (pos f6) (pos f7) (priced rows) ≡ pos (tax_base names rows)
  unfolding taxable_base
  taxable_base_lem names rows = rw (
    taxed_rows (has names (codes "F-8")) rows,
    if_pos (has names (codes "F-5")) f5 0,
    if_pos (has names (codes "F-6")) f6 0,
    if_pos (has names (codes "F-7")) f7 0,
    pos_add,
    pos_add,
    pos_add,
  )
