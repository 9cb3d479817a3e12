-- ===== src/Gst/Tax/Numbering.antt =====
-- An invoice number tells its financial year and its sequence number.
use mathlib.Core.List.{append_assoc}
use jsyxi_shipping.Prelude.{
  ℕ, ◌+◌, ◌%◌, ◌≡◌, refl, ap, sym, ◌∙◌, [], ◌∷◌, ◌++◌, Text, length, length-append, drop, arith,
  to_text, pad_start, digits_value, suc, span_digits,
}
use jsyxi_shipping.Prelude.Decimal.{
  to_text-IsDigit, digits_value-to_text, digits_value-pad_start, length-pad_start,
  span_digits-append,
}
use jsyxi_shipping.Gst.Tax.{start_year, financial_year_for_shop_local, format_invoice_number}

drop-append : (xs ys : Text) → drop (length xs) (xs ++ ys) ≡ ys
drop-append [] ys = refl
drop-append (x ∷ xs) ys = drop-append xs ys

drop-append_length : (n : ℕ) (xs ys : Text) → length xs ≡ n → drop n (xs ++ ys) ≡ ys
drop-append_length n xs ys h = rw (sym h) (drop-append xs ys)

-- What is read back from a number, past its series: the year and the sequence number.
abbrev start_of : Text → ℕ
start_of t = digits_value (span_digits t).0

abbrev seq_of : Text → ℕ
seq_of t = digits_value (drop 4 (span_digits t).1)

abbrev year_and_seq : ℕ → ℕ → ℕ → Text
year_and_seq y m seq = financial_year_for_shop_local y m ++ b'/' ∷ pad_start 6 b'0' (to_text seq)

span-year_and_seq :
    (y m seq : ℕ)
    → span_digits (year_and_seq y m seq) ≡ (
      to_text (start_year y m),
      b'-' ∷ pad_start 2 b'0' (to_text ((start_year y m + 1) % 100))
          ++ b'/' ∷ pad_start 6 b'0' (to_text seq),
    )
unfolding financial_year_for_shop_local
span-year_and_seq y m seq =
    let n = start_year y m in
    let short = pad_start 2 b'0' (to_text ((n + 1) % 100)) in
    let tail = b'/' ∷ pad_start 6 b'0' (to_text seq) in
    ap span_digits (append_assoc (to_text n) (b'-' ∷ short) tail)
    ∙ span_digits-append (to_text n) b'-' (short ++ tail) (to_text-IsDigit n) refl

start_of-year_and_seq : (y m seq : ℕ) → start_of (year_and_seq y m seq) ≡ start_year y m
start_of-year_and_seq y m seq =
    rw (span-year_and_seq y m seq) (digits_value-to_text (start_year y m))

length-short : (n : ℕ) → length (pad_start 2 b'0' (to_text (n % 100)) ++ b'/' ∷ []) ≡ 3
length-short n =
    let short = pad_start 2 b'0' (to_text (n % 100)) in
    omega (arith, length-append short (b'/' ∷ []), length-pad_start 1 (n % 100) (omega arith))

seq_of-year_and_seq : (y m seq : ℕ) → seq_of (year_and_seq y m seq) ≡ seq
seq_of-year_and_seq y m seq =
    let short = pad_start 2 b'0' (to_text ((start_year y m + 1) % 100)) in
    let pad = pad_start 6 b'0' (to_text seq) in
    rw (span-year_and_seq y m seq, sym (append_assoc short (b'/' ∷ []) pad))
      (ap digits_value
          (drop-append_length 3 (short ++ b'/' ∷ []) pad (length-short (start_year y m + 1)))
        ∙ digits_value-pad_start 6 seq)

drop-series : (series t : Text) → drop (suc (length series)) (series ++ b'/' ∷ t) ≡ t
drop-series [] t = refl
drop-series (x ∷ series) t = drop-series series t

after_series :
    (series : Text) (y m seq : ℕ)
    → drop
        (suc (length series))
        (format_invoice_number series (financial_year_for_shop_local y m) seq)
      ≡ year_and_seq y m seq
unfolding format_invoice_number
after_series series y m seq =
    let fy = financial_year_for_shop_local y m in
    let pad = pad_start 6 b'0' (to_text seq) in
    ap (drop (suc (length series))) (append_assoc series (b'/' ∷ fy) (b'/' ∷ pad))
    ∙ drop-series series (year_and_seq y m seq)

-- Two invoice numbers of one series agree only for the same financial year and sequence number, the
-- year taken from the local year and month of issue.
pub format_invoice_number-injective :
    (series : Text) (y₁ m₁ seq₁ y₂ m₂ seq₂ : ℕ)
    → format_invoice_number series (financial_year_for_shop_local y₁ m₁) seq₁
      ≡ format_invoice_number series (financial_year_for_shop_local y₂ m₂) seq₂
    → (start_year y₁ m₁ ≡ start_year y₂ m₂) × (seq₁ ≡ seq₂)
format_invoice_number-injective series y₁ m₁ seq₁ y₂ m₂ seq₂ h =
    let tails : year_and_seq y₁ m₁ seq₁ ≡ year_and_seq y₂ m₂ seq₂ =
      sym (after_series series y₁ m₁ seq₁)
      ∙ ap (drop (suc (length series))) h
      ∙ after_series series y₂ m₂ seq₂ in
    (
      sym (start_of-year_and_seq y₁ m₁ seq₁) ∙ ap start_of tails ∙ start_of-year_and_seq y₂ m₂ seq₂,
      sym (seq_of-year_and_seq y₁ m₁ seq₁) ∙ ap seq_of tails ∙ seq_of-year_and_seq y₂ m₂ seq₂,
    )
