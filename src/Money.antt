-- ===== src/Money.antt =====
-- src/common/money.ts: money in integer paise, rates in integer millionths, half-up rounding.
-- `Paise` is a BigInt, so an integer; a `Millionths` is never negative.
pub mod RoundTrip
pub mod Rounding
use jsyxi_shipping.Prelude.{
  ℕ, ◌+◌, ◌-◌, ◌*◌, ◌/◌, ◌%◌, Bool, true, false, not, Option, none, some, List, [], ◌∷◌, ◌++◌, Text,
  codes, ltb, leb, ◌==◌, if◌then◌else◌, take, drop, text_eq, trim, to_text, pad_start, digits_value,
  decimal_groups, pad_fraction,
}
use jsyxi_shipping.Prelude.Int.{ℤ, pos, negsuc, pos_part, neg_part, ltb_ℤ, leb_ℤ, neg, ◌*ℤ◌, sum}
use jsyxi_shipping.Result.{
  Result, ok, err, invalid_money, sub_paise, invalid_rate, nonpositive_denominator, negative_amount,
  nonpositive_divisor, ◌>>=◌, of_scaled,
}

abbrev pub Paise : Type 0
Paise = ℤ

abbrev pub Millionths : Type 0
Millionths = ℕ

abbrev pub paise_per_rupee : ℕ
paise_per_rupee = 100

abbrev pub million : ℕ
million = 1_000_000

-- The groups `(\d+)(?:\.(\d{1,4}))?` behind the sign; the stored scale is 4 decimal places, and the
-- last two of them must be zero.
paise_of_groups : Option (Text × Text) → Result ℕ
paise_of_groups none = err invalid_money
paise_of_groups (some (whole, frac)) =
    let frac_padded = pad_fraction 4 frac in
    if not (text_eq (drop 2 frac_padded) (codes "00"))
    then err sub_paise
    else ok (digits_value whole * paise_per_rupee + digits_value (take 2 frac_padded))

unsigned_paise : Text → Result ℕ
unfolding paise_of_groups
unsigned_paise s = paise_of_groups (decimal_groups 4 s)

signed_paise : Text → Result Paise
signed_paise [] = err invalid_money
signed_paise (c ∷ s) =
    if c == b'-'
    then (do n ← unsigned_paise s; ok (neg (pos n)))
    else (do n ← unsigned_paise (c ∷ s); ok (pos n))

unfoldable pub rupees_to_paise : Text → Result Paise
unfolding signed_paise unsigned_paise
rupees_to_paise value = signed_paise (trim value)

unfoldable pub paise_to_rupees : Paise → Text
paise_to_rupees paise =
    let negative = ltb_ℤ paise (pos 0) in
    let abs = pos_part (if negative then neg paise else paise) in
    (if negative then codes "-" else [])
    ++ to_text (abs / paise_per_rupee)
    ++ b'.' ∷ pad_start 2 b'0' (to_text (abs % paise_per_rupee))

unfoldable pub rate_to_millionths : Text → Result Millionths
rate_to_millionths value = of_scaled 6 invalid_rate value

-- The quotient of naturals, the half rounded up.
unfoldable pub half_up : ℕ → ℕ → ℕ
half_up n d = let q = n / d in let r = n % d in if leb d (r * 2) then q + 1 else q

unfoldable pub div_round_half_up : ℤ → ℤ → Result ℤ
div_round_half_up numerator denominator =
    if leb_ℤ denominator (pos 0)
    then err nonpositive_denominator
    else if ltb_ℤ numerator (pos 0)
    then err negative_amount
    else ok (pos (half_up (pos_part numerator) (pos_part denominator)))

unfoldable pub apply_rate : Paise → Millionths → Result Paise
unfolding div_round_half_up
apply_rate amount rate = div_round_half_up (amount *ℤ pos rate) (pos million)

unfoldable pub sum_components : List Paise → Paise
sum_components components = sum components

unfoldable pub ceil_div : ℤ → ℤ → Result ℤ
ceil_div a b =
    if leb_ℤ b (pos 0)
    then err nonpositive_divisor
    else if leb_ℤ a (pos 0)
    then ok (pos 0)
    else ok (pos ((pos_part a + pos_part b - 1) / pos_part b))
