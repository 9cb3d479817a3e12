-- ===== src/Money/RoundTrip.antt =====
-- Printing an amount and reading it back: `paiseToRupees` and `rupeesToPaise`.
use native.Mathlib.Nat.{div-add-mod'}
use jsyxi_shipping.Prelude.{
  ◌/◌, ◌%◌, to_text, ap, true, false, is_space, inl, inr, All, is_empty, Bool-cases, ◌==◌, ℕ, suc,
  ◌≡◌, refl, [], ◌∷◌, ◌++◌, arith, Text, codes, take, drop, pad_fraction, length, text_eq,
}
use jsyxi_shipping.Prelude.Int.{pos, negsuc, neg, ltb_ℤ}
use jsyxi_shipping.Prelude.Decimal.{
  print_decimal, printed_groups, IsDigit, read-print, trim-print, trim_id, NoSpace, decimal-NoSpace,
  IsDigit-pad_start, to_text-IsDigit, is_empty-to_text, length-printed, digits_value-pad_start,
  digits_value-to_text,
}
use jsyxi_shipping.Result.{ok}
use jsyxi_shipping.Money.{unsigned_paise, signed_paise, rupees_to_paise, paise_to_rupees, Paise}

two_digits :
    (f : Text)
    → length f ≡ 2
    → (drop 2 (pad_fraction 4 f) ≡ codes "00") × (take 2 (pad_fraction 4 f) ≡ f)
two_digits [] h = absurd (omega arith)
two_digits (a ∷ []) h = absurd (omega arith)
two_digits (a ∷ b ∷ []) h = (refl, refl)
two_digits (a ∷ b ∷ c ∷ f) h = absurd (omega arith)

unsigned_paise-print : (n : ℕ) → unsigned_paise (print_decimal 2 n) ≡ ok n
unfolding unsigned_paise text_eq
unsigned_paise-print n =
    let f = (printed_groups 2 n).1 in
    let (zeros, digits) = two_digits f (length-printed 1 n) in
    rw (read-print 1 4 n (omega arith), zeros, digits)
      (rw (digits_value-to_text, digits_value-pad_start) (ap ok (div-add-mod' n 100)))

signed_paise-digits :
    (s t : Text) (n : ℕ)
    → All IsDigit s
    → is_empty s ≡ false
    → unsigned_paise (s ++ t) ≡ ok n
    → signed_paise (s ++ t) ≡ ok (pos n)
unfolding signed_paise
signed_paise-digits [] t n h e u = cc
signed_paise-digits (c ∷ s) t n (h, hs) e u = elim (Bool-cases (c == b'-')) [
  | inl minus ↦ absurd (ground arith)
  | inr digit ↦ rw (digit, u)
]

signed_paise-print : (n : ℕ) → signed_paise (print_decimal 2 n) ≡ ok (pos n)
unfolding print_decimal
signed_paise-print n =
    signed_paise-digits (to_text (n / 100)) _ n (to_text-IsDigit (n / 100))
      (is_empty-to_text (n / 100)) (unsigned_paise-print n)

paise_to_rupees-pos : (n : ℕ) → paise_to_rupees (pos n) ≡ print_decimal 2 n
unfolding paise_to_rupees print_decimal
paise_to_rupees-pos n = rw (nonneg n)
  where
    nonneg : (n : ℕ) → ltb_ℤ (pos n) (pos 0) ≡ false
    nonneg n = ground arith

negsuc-negative : (n : ℕ) → ltb_ℤ (negsuc n) (pos 0) ≡ true
negsuc-negative n = ground arith

neg-negsuc : (n : ℕ) → neg (negsuc n) ≡ pos (suc n)
unfolding neg
neg-negsuc n = ground arith

neg-pos_suc : (n : ℕ) → neg (pos (suc n)) ≡ negsuc n
unfolding neg
neg-pos_suc n = ground arith

paise_to_rupees-negsuc : (n : ℕ) → paise_to_rupees (negsuc n) ≡ b'-' ∷ print_decimal 2 (suc n)
unfolding paise_to_rupees print_decimal
paise_to_rupees-negsuc n = rw (negsuc-negative n, neg-negsuc n)

minus-NoSpace : NoSpace b'-'
unfolding is_space
minus-NoSpace = refl

print-NoSpace : (n : ℕ) → All NoSpace (print_decimal 2 n)
unfolding print_decimal
print-NoSpace n = decimal-NoSpace (n / 100) _ (IsDigit-pad_start 2 (n % 100))

-- An amount of paise that is printed in rupees reads back as itself, negative or not.
pub rupees_to_paise-paise_to_rupees :
    (paise : Paise) → rupees_to_paise (paise_to_rupees paise) ≡ ok paise
unfolding rupees_to_paise
rupees_to_paise-paise_to_rupees (pos n) =
    rw (paise_to_rupees-pos n, trim-print 2 n) (signed_paise-print n)
rupees_to_paise-paise_to_rupees (negsuc n) =
    rw
      (
        paise_to_rupees-negsuc n,
        trim_id (b'-' ∷ print_decimal 2 (suc n)) (minus-NoSpace, print-NoSpace (suc n)),
      )
      (unfold signed_paise in rw (unsigned_paise-print (suc n)) (ap ok (neg-pos_suc n)))
