-- ===== src/Derivation/Eligibility.antt =====
-- src/modules/order-derivation/eligibility.ts: the checks that block a booking (INV-7). The two checks of
-- the courier module pass in the source, which holds their results as constants.
pub mod Ready
use jsyxi_shipping.Prelude.{
  ℕ, Bool, true, false, not, ◌&&◌, ◌||◌, Option, none, some, List, [], ◌∷◌, Text, any, all, filter,
  is_empty, is_digit, length, ltb, ◌==◌, trim, decimal_groups, pad_fraction, digits_value,
  if◌then◌else◌,
}
use jsyxi_shipping.Prelude.Int.{ℤ, pos, leb_ℤ, ltb_ℤ}
use jsyxi_shipping.Result.{Result, ok, ◌>>=◌}
use jsyxi_shipping.Money.{rupees_to_paise}
use jsyxi_shipping.Derivation.Weight.{kg_to_grams}
use jsyxi_shipping.Derivation.Payment.{PaymentMode, unresolved}

pub data EligibilityCheck : Type 0 where
  recipient_name recipient_address recipient_pincode recipient_phone : EligibilityCheck
  allocated_lines positive_weight positive_dimensions pickup_location : EligibilityCheck
  payment_mode collectible service_serviceable courier_credentials : EligibilityCheck

pub record EligibilityRecipient : Type 0 where
  pub name : Option Text
  pub address_lines : List Text
  pub pincode : Option Text
  pub phone : Option Text

pub record Dimensions : Type 0 where
  pub length_cm : Text
  pub width_cm : Text
  pub height_cm : Text

pub record EligibilityInput : Type 0 where
  pub recipient : Option EligibilityRecipient
  pub allocated_line_count : ℤ
  pub dead_weight_kg : Option Text
  pub dimensions_cm : Option Dimensions
  pub pickup_location_id : Option Text
  pub payment_mode : PaymentMode
  pub collectible : Option Text

pub record EligibilityResult : Type 0 where
  pub ready : Bool
  pub failures : List EligibilityCheck

abbrev pub non_blank_text : Text → Bool
non_blank_text value = not (is_empty (trim value))

abbrev pub non_blank : Option Text → Bool
non_blank none = false
non_blank (some value) = non_blank_text value

-- `/^[0-9]{6}$/` on the trimmed text
abbrev pub valid_pincode : Option Text → Bool
valid_pincode none = false
valid_pincode (some pincode) = all is_digit (trim pincode) && length (trim pincode) == 6

abbrev pub starts_with_0 : Text → Bool
starts_with_0 (c ∷ _) = c == b'0'
starts_with_0 [] = false

abbrev pub starts_with_91 : Text → Bool
starts_with_91 (c ∷ d ∷ _) = c == b'9' && d == b'1'
starts_with_91 _ = false

abbrev pub valid_digits : Text → Bool
valid_digits digits =
    length digits == 10
    || (length digits == 11 && starts_with_0 digits)
    || (length digits == 12 && starts_with_91 digits)

abbrev pub valid_phone : Option Text → Bool
valid_phone none = false
valid_phone (some phone) = valid_digits (filter is_digit phone)

abbrev pub positive_groups : Option (Text × Text) → Bool
positive_groups none = false
positive_groups (some (whole, frac)) =
    ltb 0 (digits_value whole) || ltb 0 (digits_value (pad_fraction 2 frac))

unfoldable pub positive_dimension : Text → Bool
positive_dimension value = positive_groups (decimal_groups 2 (trim value))

abbrev pub recipient_name_of : Option EligibilityRecipient → Option Text
recipient_name_of none = none
recipient_name_of (some r) = r.name

abbrev pub has_address : Option EligibilityRecipient → Bool
has_address none = false
has_address (some r) = any non_blank_text r.address_lines

abbrev pub pincode_of : Option EligibilityRecipient → Option Text
pincode_of none = none
pincode_of (some r) = r.pincode

abbrev pub phone_of : Option EligibilityRecipient → Option Text
phone_of none = none
phone_of (some r) = r.phone

unfoldable pub has_weight : Option Text → Result Bool
has_weight none = ok false
has_weight (some kg) = do grams ← kg_to_grams kg; ok (ltb 0 grams)

abbrev pub has_dimensions : Option Dimensions → Bool
has_dimensions none = false
has_dimensions (some d) =
    positive_dimension d.length_cm
    && positive_dimension d.width_cm
    && positive_dimension d.height_cm

abbrev pub is_resolved : PaymentMode → Bool
is_resolved unresolved = false
is_resolved _ = true

unfoldable pub has_collectible : Option Text → Result Bool
has_collectible none = ok false
has_collectible (some c) = do paise ← rupees_to_paise c; ok (leb_ℤ (pos 0) paise)

abbrev pub is_given : Option Text → Bool
is_given none = false
is_given (some _) = true

-- `if (!passes) failures.push(check)`, before the checks that follow
unfoldable pub unless : Bool → EligibilityCheck → List EligibilityCheck → List EligibilityCheck
unless true check rest = rest
unless false check rest = check ∷ rest

unfoldable pub evaluate_eligibility : EligibilityInput → Result EligibilityResult
evaluate_eligibility input = do
  weight ← has_weight input.dead_weight_kg
  collects ← has_collectible input.collectible
  let failures = unless (non_blank (recipient_name_of input.recipient)) recipient_name (
      unless (has_address input.recipient) recipient_address (
        unless (valid_pincode (pincode_of input.recipient)) recipient_pincode (
          unless (valid_phone (phone_of input.recipient)) recipient_phone (
            unless (ltb_ℤ (pos 0) input.allocated_line_count) allocated_lines (
              unless weight positive_weight (
                unless (has_dimensions input.dimensions_cm) positive_dimensions (
                  unless (is_given input.pickup_location_id) pickup_location (
                    unless (is_resolved input.payment_mode) EligibilityCheck.payment_mode
                      (unless collects EligibilityCheck.collectible [])))))))))
  ok (record { ready = is_empty failures; failures = failures })
