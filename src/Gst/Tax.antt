-- ===== src/Gst/Tax.antt =====
-- src/modules/gst/gst-tax.ts: the tax of an invoice line, the totals of an invoice, the financial year
-- and the invoice number. A year is a number from 1; the local date of an instant is given.
pub mod Split
pub mod Totals
pub mod Numbering
use jsyxi_shipping.Prelude.{
  ℕ, ◌+◌, ◌-◌, ◌/◌, ◌%◌, ◌*◌, Bool, true, false, ◌||◌, Option, none, some, List, [], ◌∷◌, ◌++◌,
  Text, codes, leb, to_text, pad_start, if◌then◌else◌,
}
use jsyxi_shipping.Prelude.Int.{ℤ, pos, ltb_ℤ, ◌+ℤ◌, ◌*ℤ◌}
use jsyxi_shipping.Result.{Result, ok, ◌>>=◌}
use jsyxi_shipping.Money.{
  Paise, Millionths, million, apply_rate, paise_to_rupees, rupees_to_paise, sum_components,
}

abbrev pub default_gst_rate : Millionths
default_gst_rate = 180_000

pub record LineTaxPaise : Type 0 where
  pub cgst : Paise
  pub sgst : Paise
  pub igst : Paise

pub data TaxType : Type 0 where
  cgst_type sgst_type igst_type : TaxType

pub record TaxComponentJson : Type 0 where
  pub type_ : TaxType
  pub rate : Text
  pub amount : Text

pub record InvoiceTotalsJson : Type 0 where
  pub taxable_value : Text
  pub cgst : Text
  pub sgst : Text
  pub igst : Text
  pub tax_total : Text
  pub grand_total : Text
  pub currency : Text

unfoldable pub millionths_to_rate_string : Millionths → Text
millionths_to_rate_string rate =
    let whole = rate / million in
    let frac = rate % million in to_text whole ++ b'.' ∷ pad_start 6 b'0' (to_text frac)

unfoldable pub compute_line_tax : Paise → Millionths → Bool → Result LineTaxPaise
compute_line_tax taxable_value rate true = do
  let half = rate / 2
  cgst ← apply_rate taxable_value half
  sgst ← apply_rate taxable_value (rate - half)
  ok (record { cgst = cgst; sgst = sgst; igst = pos 0 })
compute_line_tax taxable_value rate false = do
  igst ← apply_rate taxable_value rate
  ok (record { cgst = pos 0; sgst = pos 0; igst = igst })

unfoldable pub tax_components_json : LineTaxPaise → Millionths → List TaxComponentJson
tax_components_json tax rate =
    let half = rate / 2 in
    (if ltb_ℤ (pos 0) tax.cgst || ltb_ℤ (pos 0) tax.sgst
      then record {
        type_ = cgst_type;
        rate = millionths_to_rate_string half;
        amount = paise_to_rupees tax.cgst;
      }
        ∷ record {
          type_ = sgst_type;
          rate = millionths_to_rate_string (rate - half);
          amount = paise_to_rupees tax.sgst;
        }
        ∷ []
      else [])
    ++ (if ltb_ℤ (pos 0) tax.igst
        then record {
          type_ = igst_type;
          rate = millionths_to_rate_string rate;
          amount = paise_to_rupees tax.igst;
        }
          ∷ []
        else [])

unfoldable pub line_total_paise : Paise → LineTaxPaise → Paise
line_total_paise taxable_value tax =
    sum_components (taxable_value ∷ tax.cgst ∷ tax.sgst ∷ tax.igst ∷ [])

pub record InvoiceLine : Type 0 where
  pub taxable_value : Paise
  pub tax : LineTaxPaise

-- The four accumulators of the loop over the lines.
pub record Sums : Type 0 where
  pub taxable : Paise
  pub cgst : Paise
  pub sgst : Paise
  pub igst : Paise

unfoldable pub add_lines : Sums → List InvoiceLine → Sums
add_lines acc [] = acc
add_lines acc (l ∷ lines) =
    add_lines
      (record {
        taxable = acc.taxable +ℤ l.taxable_value;
        cgst = acc.cgst +ℤ l.tax.cgst;
        sgst = acc.sgst +ℤ l.tax.sgst;
        igst = acc.igst +ℤ l.tax.igst;
      })
      lines

abbrev pub no_sums : Sums
no_sums = record { taxable = pos 0; cgst = pos 0; sgst = pos 0; igst = pos 0 }

unfoldable pub compute_totals : List InvoiceLine → InvoiceTotalsJson
unfolding add_lines
compute_totals lines =
    let sums = add_lines no_sums lines in
    let tax_total = sum_components (sums.cgst ∷ sums.sgst ∷ sums.igst ∷ []) in
    record {
      taxable_value = paise_to_rupees sums.taxable;
      cgst = paise_to_rupees sums.cgst;
      sgst = paise_to_rupees sums.sgst;
      igst = paise_to_rupees sums.igst;
      tax_total = paise_to_rupees tax_total;
      grand_total = paise_to_rupees (sums.taxable +ℤ tax_total);
      currency = codes "INR";
    }

unfoldable pub taxable_value_paise : Option Text → ℤ → Result (Option Paise)
taxable_value_paise none quantity = ok none
taxable_value_paise (some unit_price) quantity = do
  paise ← rupees_to_paise unit_price
  ok (some (paise *ℤ quantity))

-- The year in which the financial year of a local month starts.
abbrev pub start_year : ℕ → ℕ → ℕ
start_year year month = if leb 4 month then year else year - 1

unfoldable pub financial_year_for_shop_local : ℕ → ℕ → Text
financial_year_for_shop_local year month =
    let start = start_year year month in
    to_text start ++ b'-' ∷ pad_start 2 b'0' (to_text ((start + 1) % 100))

unfoldable pub format_invoice_number : Text → Text → ℕ → Text
format_invoice_number series financial_year seq =
    series ++ b'/' ∷ financial_year ++ b'/' ∷ pad_start 6 b'0' (to_text seq)
