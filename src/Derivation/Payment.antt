-- ===== src/Derivation/Payment.antt =====
-- src/modules/order-derivation/payment.ts: the outstanding COD amount (F-15) and the payment mode.
-- `undefined` and `null` are both `none`.
pub mod Modes
use jsyxi_shipping.Prelude.{
  Bool, true, false, not, ◌&&◌, Option, none, some, List, Text, text_eq, any, is_empty,
  if◌then◌else◌,
}
use jsyxi_shipping.Prelude.Int.{ℤ, pos, ltb_ℤ}
use jsyxi_shipping.Result.{Result, ok, ◌>>=◌}
use jsyxi_shipping.Money.{Paise, rupees_to_paise, paise_to_rupees}

pub record CodOutstandingInput : Type 0 where
  pub order_amount_f17 : Option Text
  pub total_outstanding_shop_money : Option Text
  pub has_cod_mapped_gateway : Bool

pub data CodOutstandingBasis : Type 0 where
  total_outstanding cod_gateway prepaid_gateways undetermined : CodOutstandingBasis

pub record CodOutstandingResult : Type 0 where
  pub cod_outstanding : Option Text
  pub basis : CodOutstandingBasis

-- `paise > 0n ? paise : 0n`
abbrev pub floor_zero : Paise → Paise
floor_zero paise = if ltb_ℤ (pos 0) paise then paise else pos 0

-- The branch of a COD-mapped gateway.
unfoldable pub cod_gateway_outstanding : Option Text → Result CodOutstandingResult
cod_gateway_outstanding none = ok (record { cod_outstanding = none; basis = undetermined })
cod_gateway_outstanding (some f17) = do
  paise ← rupees_to_paise f17
  ok (record { cod_outstanding = some (paise_to_rupees (floor_zero paise)); basis = cod_gateway })

unfoldable pub outstanding_of : CodOutstandingInput → Option Text → Result CodOutstandingResult
unfolding cod_gateway_outstanding
outstanding_of input (some total) = do
  paise ← rupees_to_paise total
  ok (record {
    cod_outstanding = some (paise_to_rupees (floor_zero paise));
    basis = total_outstanding;
  })
outstanding_of input none =
    if input.has_cod_mapped_gateway
    then cod_gateway_outstanding input.order_amount_f17
    else ok (record { cod_outstanding = some (paise_to_rupees (pos 0)); basis = prepaid_gateways })

unfoldable pub derive_cod_outstanding : CodOutstandingInput → Result CodOutstandingResult
unfolding outstanding_of
derive_cod_outstanding input = outstanding_of input input.total_outstanding_shop_money

pub data PaymentMode : Type 0 where
  prepaid cod unresolved : PaymentMode

pub record PaymentModeInput : Type 0 where
  pub gateway_names : List Text
  pub cod_gateway_map : List Text
  pub cod_outstanding : Option Text

abbrev pub is_cod_gateway : PaymentModeInput → Text → Bool
is_cod_gateway input g = any (text_eq g) input.cod_gateway_map

-- The last test of both branches, on a balance that may be undetermined.
unfoldable pub mode_by_balance : Option Text → PaymentMode → PaymentMode → Result PaymentMode
mode_by_balance none positive zero = ok unresolved
mode_by_balance (some outstanding) positive zero = do
  paise ← rupees_to_paise outstanding
  ok (if ltb_ℤ (pos 0) paise then positive else zero)

unfoldable pub derive_payment_mode : PaymentModeInput → Result PaymentMode
unfolding mode_by_balance
derive_payment_mode input =
    let has_cod = any (is_cod_gateway input) input.gateway_names in
    let has_prepaid = any (λ g. not (is_cod_gateway input g)) input.gateway_names in
    if is_empty input.gateway_names
    then ok unresolved
    else if has_cod && has_prepaid
    then ok unresolved
    else if has_cod
    then mode_by_balance input.cod_outstanding cod prepaid
    else mode_by_balance input.cod_outstanding unresolved prepaid
