-- ===== src/Rules/Decimals.antt =====
-- src/modules/rules/evaluate.ts: comparison of decimal texts at six places.
use jsyxi_shipping.Prelude.{
  Option, none, some, [], ◌∷◌, Text, trim, decimal_groups, ◌==◌, if◌then◌else◌,
}
use jsyxi_shipping.Prelude.Int.{ℤ, pos, negsuc, neg, ltb_ℤ}
use jsyxi_shipping.Prelude.Decimal.{scaled}

abbrev pub scaled_groups : Option (Text × Text) → Option ℤ
scaled_groups none = none
scaled_groups (some groups) = some (pos (scaled 6 groups))

abbrev pub negated : Option ℤ → Option ℤ
negated none = none
negated (some n) = some (neg n)

-- `/^(-?)(\d+)(?:\.(\d{1,6}))?$/` and the value in millionths.
unfoldable pub signed_decimal : Text → Option ℤ
signed_decimal [] = none
signed_decimal (c ∷ s) =
    if c == b'-'
    then negated (scaled_groups (decimal_groups 6 s))
    else scaled_groups (decimal_groups 6 (c ∷ s))

unfoldable pub parse_decimal : Text → Option ℤ
parse_decimal value = signed_decimal (trim value)

abbrev pub sign_of : ℤ → ℤ → ℤ
sign_of x y = if ltb_ℤ x y then negsuc 0 else if ltb_ℤ y x then pos 1 else pos 0

abbrev pub cmp_parsed : Option ℤ → Option ℤ → Option ℤ
cmp_parsed (some x) (some y) = some (sign_of x y)
cmp_parsed _ _ = none

unfoldable pub cmp_decimal : Text → Text → Option ℤ
cmp_decimal a b = cmp_parsed (parse_decimal a) (parse_decimal b)
