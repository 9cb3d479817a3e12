-- ===== src/Examples/Amounts.antt =====
-- Money, invoices and COD expectations on concrete amounts.
use jsyxi_shipping.Prelude.{ℕ, List, ◌≡◌, refl, true, false, [], ◌∷◌, codes, ◌+◌, ◌≤◌, to_text}
use jsyxi_shipping.Prelude.Int.{pos, negsuc, neg, ◌+ℤ◌, ◌-ℤ◌}
use jsyxi_shipping.Result.{ok}
use jsyxi_shipping.Money.{rupees_to_paise, paise_to_rupees, div_round_half_up}
use jsyxi_shipping.Money.RoundTrip.{rupees_to_paise-paise_to_rupees}
use jsyxi_shipping.Money.Rounding.{RoundsHalfUp, div_round_half_up_lem}
use jsyxi_shipping.Gst.Tax.{
  InvoiceLine, compute_line_tax, compute_totals, financial_year_for_shop_local,
  format_invoice_number, start_year,
}
use jsyxi_shipping.Gst.Tax.Split.{compute_line_tax_lem}
use jsyxi_shipping.Gst.Tax.Totals.{TotalsOf, compute_totals-TotalsOf}
use jsyxi_shipping.Gst.Tax.Numbering.{format_invoice_number-injective}
use jsyxi_shipping.Cod.State.{CodInput, short, derive_cod_state, awaiting, text_ltb}
use jsyxi_shipping.Cod.State.Rules.{StateRule, derive_cod_state-StateRule}
use jsyxi_shipping.Derivation.Weight.{kg_to_grams, grams_to_kg}
use jsyxi_shipping.Derivation.Weight.Total.{kg_to_grams-grams_to_kg}

rupees_to_paise-paise_to_rupees_example :
    rupees_to_paise (paise_to_rupees (negsuc 1_204)) ≡ ok (negsuc 1_204)
rupees_to_paise-paise_to_rupees_example = rupees_to_paise-paise_to_rupees (negsuc 1_204)

test_paise_to_rupees : paise_to_rupees (negsuc 1_204) ≡ codes "-12.05"
unfolding paise_to_rupees to_text neg
test_paise_to_rupees = refl

kg_to_grams-grams_to_kg_example : kg_to_grams (grams_to_kg (pos 1_630)) ≡ ok 1_630
kg_to_grams-grams_to_kg_example = kg_to_grams-grams_to_kg 1_630

div_round_half_up_lem_example : RoundsHalfUp (pos 5) (pos 2) (div_round_half_up (pos 5) (pos 2))
div_round_half_up_lem_example = div_round_half_up_lem (pos 5) (pos 2)

abbrev two_lines : List InvoiceLine
two_lines =
    record {
      taxable_value = pos 16_000;
      tax = record { cgst = pos 1_440; sgst = pos 1_440; igst = pos 0 };
    }
    ∷ record {
      taxable_value = pos 9_999;
      tax = record { cgst = pos 0; sgst = pos 0; igst = pos 1_800 };
    }
    ∷ []

compute_totals-TotalsOf_example : TotalsOf two_lines (compute_totals two_lines)
compute_totals-TotalsOf_example = compute_totals-TotalsOf two_lines

compute_line_tax_lem_example :
    (c s i : ℕ) × (compute_line_tax (pos 9_999) 180_001 true
      ≡ ok (record { cgst = pos c; sgst = pos s; igst = pos 0 }))
    × (compute_line_tax (pos 9_999) 180_001 false
        ≡ ok (record { cgst = pos 0; sgst = pos 0; igst = pos i }))
    × (c ≤ s)
    × (c + s ≤ i + 1)
    × (i ≤ c + s + 1)
compute_line_tax_lem_example = compute_line_tax_lem 9_999 180_001

-- March and April of one year lie in two financial years, and of two years in one.
format_invoice_number-injective_example :
    (start_year 2_026 4 ≡ start_year 2_027 3) × (◌≡◌ {A = ℕ} 241 241)
unfolding financial_year_for_shop_local
format_invoice_number-injective_example =
    format_invoice_number-injective (codes "INV") 2_026 4 241 2_027 3 241 refl

test_format_invoice_number :
    format_invoice_number (codes "INV") (financial_year_for_shop_local 2_026 4) 241
    ≡ codes "INV/2026-27/000241"
unfolding format_invoice_number financial_year_for_shop_local to_text
test_format_invoice_number = refl

abbrev short_remittance : CodInput
short_remittance = record {
  expected_paise = pos 50_000;
  allocated_paise = pos 49_000;
  tolerance_paise = pos 100;
  due_at = codes "2026-03-31";
  today_local = codes "2026-03-31";
  current = awaiting;
}

derive_cod_state-StateRule_example :
    StateRule short_remittance 100 (derive_cod_state short_remittance)
derive_cod_state-StateRule_example = derive_cod_state-StateRule short_remittance 100 refl

test_derive_cod_state : derive_cod_state short_remittance ≡ short
unfolding derive_cod_state text_ltb ◌-ℤ◌ ◌+ℤ◌
test_derive_cod_state = refl
