-- ===== src/Gst/Tax/Totals.antt =====
-- The totals of an invoice are those of its lines.
use jsyxi_shipping.Prelude.{◌≡◌, refl, ◌∙◌, sym, List, [], ◌∷◌, map, Text}
use jsyxi_shipping.Prelude.Int.{
  ℤ, pos, ◌+ℤ◌, sum, sum-cons, sum-nil, int_laws, +ℤ_zero, +ℤ_comm, +ℤ_assoc,
}
use jsyxi_shipping.Result.{ok}
use jsyxi_shipping.Money.{Paise, rupees_to_paise, paise_to_rupees, sum_components}
use jsyxi_shipping.Money.RoundTrip.{rupees_to_paise-paise_to_rupees}
use jsyxi_shipping.Gst.Tax.{
  InvoiceLine, InvoiceTotalsJson, Sums, no_sums, add_lines, compute_totals, line_total_paise,
}

abbrev pub total_of : InvoiceLine → Paise
total_of l = line_total_paise l.taxable_value l.tax

sum3 : (a b c : ℤ) → sum (a ∷ b ∷ c ∷ []) ≡ a +ℤ (b +ℤ c)
sum3 a b c = rw (sum-cons, sum-cons, sum-cons, sum-nil) (omega int_laws)

sum4 : (a b c d : ℤ) → sum (a ∷ b ∷ c ∷ d ∷ []) ≡ a +ℤ (b +ℤ (c +ℤ d))
sum4 a b c d = rw (sum-cons a, sum3) refl

abbrev pub ReadsAs : Text → Paise → Type 0
ReadsAs t p = rupees_to_paise t ≡ ok p

shift : (t a x : ℤ) (xs : List ℤ) → t ≡ a +ℤ x +ℤ sum xs → t ≡ a +ℤ sum (x ∷ xs)
shift t a x xs h = rw (h, sum-cons) (+ℤ_assoc a x (sum xs))

from_zero : (t s : ℤ) → t ≡ pos 0 +ℤ s → t ≡ s
from_zero t s h = h ∙ +ℤ_comm (pos 0) s ∙ +ℤ_zero s

add_lines-sums :
    (acc : Sums) (lines : List InvoiceLine)
    → let sums = add_lines acc lines in
      (sums.taxable ≡ acc.taxable +ℤ sum (map (λ l. l.taxable_value) lines))
      × (sums.cgst ≡ acc.cgst +ℤ sum (map (λ l. l.tax.cgst) lines))
      × (sums.sgst ≡ acc.sgst +ℤ sum (map (λ l. l.tax.sgst) lines))
      × (sums.igst ≡ acc.igst +ℤ sum (map (λ l. l.tax.igst) lines))
unfolding add_lines
add_lines-sums acc [] = rw sum-nil (omega int_laws, omega int_laws, omega int_laws, omega int_laws)
add_lines-sums acc (l ∷ lines) =
    let next : Sums = record {
      taxable = acc.taxable +ℤ l.taxable_value;
      cgst = acc.cgst +ℤ l.tax.cgst;
      sgst = acc.sgst +ℤ l.tax.sgst;
      igst = acc.igst +ℤ l.tax.igst;
    } in
    let (t, c, s, i) = add_lines-sums next lines in
    (
      shift _ acc.taxable l.taxable_value (map (λ l. l.taxable_value) lines) t,
      shift _ acc.cgst l.tax.cgst (map (λ l. l.tax.cgst) lines) c,
      shift _ acc.sgst l.tax.sgst (map (λ l. l.tax.sgst) lines) s,
      shift _ acc.igst l.tax.igst (map (λ l. l.tax.igst) lines) i,
    )

-- Adding up by lines, and by columns.
total_lines :
    (lines : List InvoiceLine)
    → sum (map total_of lines)
      ≡ sum (map (λ l. l.taxable_value) lines)
        +ℤ (sum (map (λ l. l.tax.cgst) lines)
            +ℤ (sum (map (λ l. l.tax.sgst) lines) +ℤ sum (map (λ l. l.tax.igst) lines)))
unfolding line_total_paise sum_components
total_lines [] = rw sum-nil (omega int_laws)
total_lines (l ∷ lines) =
    rw
      (
        sum-cons (total_of l) (map total_of lines),
        total_lines lines,
        sum4,
        sum-cons l.taxable_value (map (λ l. l.taxable_value) lines),
        sum-cons l.tax.cgst (map (λ l. l.tax.cgst) lines),
        sum-cons l.tax.sgst (map (λ l. l.tax.sgst) lines),
        sum-cons l.tax.igst (map (λ l. l.tax.igst) lines),
      )
      (omega int_laws)

reads : (p q : Paise) → p ≡ q → ReadsAs (paise_to_rupees p) q
reads p q e = rw e (rupees_to_paise-paise_to_rupees q)

-- The columns of an invoice are read back as the sums over its lines, and the grand total as the sum
-- of the line totals.
abbrev pub TotalsOf : List InvoiceLine → InvoiceTotalsJson → Type 0
TotalsOf lines totals =
    ReadsAs totals.taxable_value (sum (map (λ l. l.taxable_value) lines))
    × ReadsAs totals.cgst (sum (map (λ l. l.tax.cgst) lines))
    × ReadsAs totals.sgst (sum (map (λ l. l.tax.sgst) lines))
    × ReadsAs totals.igst (sum (map (λ l. l.tax.igst) lines))
    × ReadsAs totals.grand_total (sum (map total_of lines))

-- The totals of an invoice, read back as money, are for each tax the sum of that tax over the lines,
-- and the grand total is the sum of the line totals, whatever the amounts.
pub compute_totals-TotalsOf : (lines : List InvoiceLine) → TotalsOf lines (compute_totals lines)
unfolding compute_totals sum_components
compute_totals-TotalsOf lines =
    let (t, c, s, i) = add_lines-sums no_sums lines in
    let taxable = from_zero _ _ t in
    let central = from_zero _ _ c in
    let state = from_zero _ _ s in
    let integrated = from_zero _ _ i in
    (
      reads _ _ taxable,
      reads _ _ central,
      reads _ _ state,
      reads _ _ integrated,
      reads _ _ (rw (sum3, taxable, central, state, integrated) (sym (total_lines lines))),
    )
