-- ===== src/RateEngine/Rto/Totals.antt =====
-- The return charge: when there is one, what its base is, and that its lines add up.
use jsyxi_shipping.Prelude.{
  ℕ, ◌∙◌, ◌≡◌, refl, ap, subst, ◌⊎◌, inl, inr, false, Option, none, some, List, [], ◌∷◌, ◌++◌, Text,
  codes, trim, is_space, decimal_groups, text_eq, digits_value,
}
use jsyxi_shipping.Prelude.Int.{pos, ◌+ℤ◌, sum, sum-nil, sum-cons, sum-append, int_laws}
use jsyxi_shipping.Result.{ok, ◌>>=◌, >>=-eq-ok, ok-injective}
use jsyxi_shipping.Money.{Paise, rupees_to_paise, rate_to_millionths, apply_rate}
use jsyxi_shipping.Money.RoundTrip.{rupees_to_paise-paise_to_rupees}
use jsyxi_shipping.Derivation.Weight.{kg_to_grams}
use jsyxi_shipping.RateEngine.Freight.{PricedRow, price_rows, amounts, has}
use jsyxi_shipping.RateEngine.Freight.Totals.{AddsUp, component_sum, shown-row_lines}
use jsyxi_shipping.RateEngine.Rto.{
  RtoBasis, same_as_forward, percent_of_forward, RtoRule, RtoSnapshot, RtoTariff, RtoExpectation,
  expected, no_expectation, no_rto_rule, rto_pct_missing, rto_base, rto_taxable_base, rto_breakdown,
  price_rto, compute_rto_expectation,
}

sum_lines :
    (base fuel gst : Paise) (rs : List Paise)
    → sum (base ∷ fuel ∷ (rs ++ gst ∷ [])) ≡ base +ℤ fuel +ℤ sum rs +ℤ gst
sum_lines base fuel gst rs =
    rw
      (
        sum-cons base (fuel ∷ (rs ++ gst ∷ [])),
        sum-cons fuel (rs ++ gst ∷ []),
        sum-append rs (gst ∷ []),
        sum-cons gst [],
        sum-nil,
      )
      (omega int_laws)

no_cod : rupees_to_paise (codes "0.00") ≡ ok (pos 0)
unfolding rupees_to_paise trim is_space decimal_groups text_eq digits_value
no_cod = refl

with_cod : (a b c : Paise) → a +ℤ b +ℤ c ≡ a +ℤ b +ℤ pos 0 +ℤ c
with_cod a b c = omega int_laws

rto_breakdown-AddsUp :
    (names : List Text) (base fuel : Paise) (rows : List PricedRow) (gst : Paise)
    → AddsUp (rto_breakdown names base fuel rows gst) base fuel (pos 0) (sum (amounts rows)) gst
unfolding rto_breakdown component_sum
rto_breakdown-AddsUp names base fuel rows gst =
    let other = sum (amounts rows) in
    record {
      base = rupees_to_paise-paise_to_rupees base;
      fuel = rupees_to_paise-paise_to_rupees fuel;
      cod = no_cod;
      other = rupees_to_paise-paise_to_rupees other;
      subtotal =
          rupees_to_paise-paise_to_rupees (base +ℤ fuel +ℤ other)
          ∙ ap ok (with_cod base fuel other);
      gst = rupees_to_paise-paise_to_rupees gst;
      total =
          rupees_to_paise-paise_to_rupees (base +ℤ fuel +ℤ other +ℤ gst)
          ∙ ap (λ t. ok (t +ℤ gst)) (with_cod base fuel other);
      lines = rw (
        rupees_to_paise-paise_to_rupees base,
        rupees_to_paise-paise_to_rupees fuel,
        shown-row_lines (has names (codes "F-8")) rows (codes "F-10") (codes "GST") gst false,
        rupees_to_paise-paise_to_rupees (base +ℤ fuel +ℤ other +ℤ gst),
        sum_lines base fuel gst (amounts rows),
      );
    }

-- The base of the charge by the rule: the forward base freight, or its percentage.
abbrev pub BaseOf : RtoRule → Paise → Paise → Type 0
BaseOf rule forward base =
    ((rule.basis ≡ same_as_forward) × (base ≡ forward))
    ⊎ ((rule.basis ≡ percent_of_forward)
        × ((pct : Text) × (rate : ℕ) × (rule.pct ≡ some pct)
            × (rate_to_millionths pct ≡ ok rate)
            × (apply_rate forward rate ≡ ok base)))

-- Why there is no expectation, or what the expectation is.
abbrev pub Expects : Option RtoRule → RtoSnapshot → RtoExpectation → Type 0
Expects rule snapshot (no_expectation reason) =
    ((rule ≡ none) × (reason ≡ no_rto_rule))
    ⊎ ((r : RtoRule) × (rule ≡ some r)
        × (r.basis ≡ percent_of_forward)
        × (r.pct ≡ none)
        × (reason ≡ rto_pct_missing))
Expects rule snapshot (expected shown b) =
    (r : RtoRule) × (forward : Paise) × (base : Paise) × (rule ≡ some r)
    × (rupees_to_paise snapshot.f5_base_freight ≡ ok forward)
    × BaseOf r forward base
    × (rupees_to_paise shown ≡ ok base)
    × ((fuel : Paise) × (other : Paise) × (gst : Paise) × AddsUp b base fuel (pos 0) other gst)

price_rto-Expects :
    (rule : Option RtoRule) (r : RtoRule) (snapshot : RtoSnapshot) (tariff : RtoTariff)
    (forward base : Paise) (x : RtoExpectation)
    → rule ≡ some r
    → rupees_to_paise snapshot.f5_base_freight ≡ ok forward
    → BaseOf r forward base
    → price_rto snapshot tariff (some base) ≡ ok x
    → Expects rule snapshot x
unfolding price_rto
price_rto-Expects rule r snapshot tariff forward base x hr hf hb e =
    let (rate, _, e1) = >>=-eq-ok (rate_to_millionths tariff.fuel_pct) _ e in
    let (fuel, _, e2) = >>=-eq-ok (apply_rate base rate) _ e1 in
    let (w, _, e3) = >>=-eq-ok (kg_to_grams snapshot.billable_weight_kg) _ e2 in
    let (d, _, e4) = >>=-eq-ok (rupees_to_paise snapshot.declared_value) _ e3 in
    let (rows, _, e5) = >>=-eq-ok (price_rows tariff.components _) _ e4 in
    let (gst_rate, _, e6) = >>=-eq-ok (rate_to_millionths tariff.gst_pct) _ e5 in
    let (gst, _, e7) =
      >>=-eq-ok (apply_rate (rto_taxable_base tariff.taxable_components base fuel rows) gst_rate) _
        e6 in
    subst (Expects rule snapshot) (ok-injective e7) (
      r,
      forward,
      base,
      hr,
      hf,
      hb,
      rupees_to_paise-paise_to_rupees base,
      (
        fuel,
        sum (amounts rows),
        gst,
        rto_breakdown-AddsUp tariff.taxable_components base fuel rows gst,
      ),
    )

rule_lem :
    (rule : Option RtoRule) (r : RtoRule) (snapshot : RtoSnapshot) (tariff : RtoTariff)
    (forward : Paise) (x : RtoExpectation)
    → rule ≡ some r
    → rupees_to_paise snapshot.f5_base_freight ≡ ok forward
    → (basis : RtoBasis) (pct : Option Text) → r.basis ≡ basis
    → r.pct ≡ pct
    → (rto_base basis pct forward >>= price_rto snapshot tariff) ≡ ok x
    → Expects rule snapshot x
unfolding rto_base price_rto
rule_lem rule r snapshot tariff forward x hr hf same_as_forward pct hb hp e =
    price_rto-Expects rule r snapshot tariff forward forward x hr hf (inl (hb, refl)) e
rule_lem rule r snapshot tariff forward x hr hf percent_of_forward none hb hp e =
    subst (Expects rule snapshot) {x = no_expectation rto_pct_missing} (ok-injective e)
      (inr (r, hr, hb, hp, refl))
rule_lem rule r snapshot tariff forward x hr hf percent_of_forward (some pct) hb hp e =
    let (o, e0, e1) = >>=-eq-ok (rto_base percent_of_forward (some pct) forward) _ e in
    let (rate, hr', e2) = >>=-eq-ok (rate_to_millionths pct) _ e0 in
    let (base, ha, e3) = >>=-eq-ok (apply_rate forward rate) _ e2 in
    price_rto-Expects rule r snapshot tariff forward base x hr hf
      (inr (hb, (pct, rate, hp, hr', ha))) (ap (price_rto snapshot tariff) (ok-injective e3) ∙ e1)

-- Whatever `computeRtoExpectation` returns: no expectation exactly for a missing rule or a percentage
-- rule without its percentage, each with its reason; otherwise the base is the snapshot's base
-- freight or its rounded percentage, there is no COD amount, and the component lines, read one by
-- one, sum to exactly the total, which is base, fuel, surcharges and GST.
pub compute_rto_expectation-Expects :
    (rule : Option RtoRule) (snapshot : RtoSnapshot) (tariff : RtoTariff) (x : RtoExpectation)
    → compute_rto_expectation rule snapshot tariff ≡ ok x
    → Expects rule snapshot x
unfolding compute_rto_expectation
compute_rto_expectation-Expects none snapshot tariff x e =
    subst (Expects none snapshot) (ok-injective e) (inl (refl, refl))
compute_rto_expectation-Expects (some r) snapshot tariff x e =
    let (forward, hf, e1) = >>=-eq-ok (rupees_to_paise snapshot.f5_base_freight) _ e in
    rule_lem (some r) r snapshot tariff forward x refl hf r.basis r.pct refl refl e1
