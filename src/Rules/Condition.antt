-- ===== src/Rules/Condition.antt =====
-- src/modules/rules/evaluate.ts: one condition of a rule against the facts of an order.
use jsyxi_shipping.Prelude.{
  ℕ, Bool, true, false, not, ◌&&◌, ◌||◌, Option, none, some, List, [], ◌∷◌, map, Text, any, codes,
  is_empty, text_eq, to_text, trim, if◌then◌else◌,
}
use jsyxi_shipping.Prelude.Int.{ℤ, pos, leb_ℤ, eq_ℤ}
use jsyxi_shipping.Derivation.Payment.{PaymentMode, prepaid, cod}
use jsyxi_shipping.Rules.Model.{
  RuleConditionField, zone, estimated_freight, volumetric_weight, RuleOperator, equals, between,
  gte, lte, in_list, not_in_list, in_saved_zone, csv_upload, is_cod, is_prepaid, contains, is_high,
  ConditionValue, ConditionNote, note_ok, missing_data, Operand, null_operand, text_operand,
  number_operand, texts_operand, payment_operand, Host,
}
use jsyxi_shipping.Rules.Decimals.{cmp_decimal}

pub record ConditionOutcome : Type 0 where
  pub is_match : Bool
  pub operand : Operand
  pub note : ConditionNote

abbrev pub missing : ConditionOutcome
missing = record { is_match = false; operand = null_operand; note = missing_data }

abbrev pub found : Bool → Operand → ConditionOutcome
found b operand = record { is_match = b; operand = operand; note = note_ok }

-- `m === null ? MISSING : { matched: m, operand, note: 'OK' }`
abbrev pub found_or_missing : Option Bool → Operand → ConditionOutcome
found_or_missing none operand = missing
found_or_missing (some m) operand = found m operand

abbrev pub candidate_level : RuleConditionField → Bool
candidate_level estimated_freight = true
candidate_level volumetric_weight = true
candidate_level zone = true
candidate_level _ = false

abbrev pub test_cmp : (ℤ → Bool) → Text → Option Text → Option Bool
test_cmp test operand none = none
test_cmp test operand (some value) = elim (cmp_decimal operand value) [
  | none ↦ none
  | some c ↦ some (test c)
]

abbrev pub both : Option Bool → Option Bool → Option Bool
both (some a) (some b) = some (a && b)
both _ _ = none

unfoldable pub numeric_match : RuleOperator → Text → ConditionValue → Option Bool
numeric_match equals operand value = test_cmp (λ c. eq_ℤ c (pos 0)) operand value.value
numeric_match between operand value =
    both (test_cmp (λ c. leb_ℤ (pos 0) c) operand value.min)
      (test_cmp (λ c. leb_ℤ c (pos 0)) operand value.max)
numeric_match gte operand value = test_cmp (λ c. leb_ℤ (pos 0) c) operand value.value
numeric_match lte operand value = test_cmp (λ c. leb_ℤ c (pos 0)) operand value.value
numeric_match _ operand value = none

-- `case 'WEIGHT'` and the other amounts: null is missing, and so is a comparison that gives null.
abbrev pub numeric_condition : RuleOperator → Option Text → ConditionValue → ConditionOutcome
numeric_condition operator none value = missing
numeric_condition operator (some operand) value =
    found_or_missing (numeric_match operator operand value) (text_operand operand)

abbrev pub item_count_condition : RuleOperator → Option ℕ → ConditionValue → ConditionOutcome
item_count_condition operator none value = missing
item_count_condition operator (some n) value =
    found_or_missing (numeric_match operator (to_text n) value) (number_operand n)

-- `new Set(texts).has(text)`
abbrev pub has_text : Text → List Text → Bool
has_text text texts = any (text_eq text) texts

abbrev pub or_empty : Option (List Text) → List Text
or_empty none = []
or_empty (some texts) = texts

abbrev pub is_in_list : RuleOperator → Bool
is_in_list in_list = true
is_in_list _ = false

abbrev pub is_not_in_list : RuleOperator → Bool
is_not_in_list not_in_list = true
is_not_in_list _ = false

-- The entries that are not null or blank, trimmed.
unfoldable pub present_texts : List (Option Text) → List Text
present_texts [] = []
present_texts (none ∷ values) = present_texts values
present_texts (some v ∷ values) =
    let rest = present_texts values in if is_empty (trim v) then rest else trim v ∷ rest

-- With `caseFold` false, as every caller has it.
unfoldable pub any_none_match : RuleOperator → List (Option Text) → List Text → Option Bool
any_none_match operator values list =
    let present = present_texts values in
    if is_empty present
    then none
    else let any_hit = any (λ v. has_text v (map trim list)) present in
      some (if is_in_list operator then any_hit else not any_hit)

abbrev pub payment_condition : RuleOperator → PaymentMode → ConditionOutcome
payment_condition is_cod cod = found true (payment_operand cod)
payment_condition is_cod mode = found false (payment_operand mode)
payment_condition is_prepaid prepaid = found true (payment_operand prepaid)
payment_condition is_prepaid mode = found false (payment_operand mode)
payment_condition _ mode = missing

-- Which list the operator reads, and what the test of membership says.
abbrev pub pincode_list : RuleOperator → ConditionValue → List Text
pincode_list in_saved_zone value = or_empty value.pincodes
pincode_list csv_upload value = or_empty value.pincodes
pincode_list _ value = or_empty value.list

abbrev pub pincode_test : RuleOperator → Bool → Bool
pincode_test not_in_list inside = not inside
pincode_test in_list inside = inside
pincode_test in_saved_zone inside = inside
pincode_test csv_upload inside = inside
pincode_test _ inside = false

abbrev pub pincode_condition : RuleOperator → Option Text → ConditionValue → ConditionOutcome
pincode_condition operator none value = missing
pincode_condition operator (some pin) value =
    found (pincode_test operator (has_text pin (map trim (pincode_list operator value))))
      (text_operand pin)

abbrev pub lines_condition : RuleOperator → List (Option Text) → ConditionValue → ConditionOutcome
lines_condition operator values value =
    found_or_missing (any_none_match operator values (or_empty value.list)) (texts_operand values)

abbrev pub is_prefix : Text → Text → Bool
is_prefix [] _ = true
is_prefix (_ ∷ _) [] = false
is_prefix (c ∷ s) (d ∷ t) = text_eq (c ∷ []) (d ∷ []) && is_prefix s t

-- String.prototype.includes
unfoldable pub includes : Text → Text → Bool
includes [] needle = is_empty needle
includes (c ∷ s) needle = is_prefix needle (c ∷ s) || includes s needle

-- `list[0] ?? value.value ?? ''`
abbrev pub needle_of : List Text → Option Text → Text
needle_of (first ∷ _) value = first
needle_of [] (some value) = value
needle_of [] none = []

module _ (host : Host) where
  abbrev pub fold : Text → Text
  fold value = host.to_lower_case (trim value)

  abbrev pub folded_test : RuleOperator → Text → List Text → Bool
  folded_test operator operand list =
      let inside = has_text (fold operand) (map fold list) in
      if is_not_in_list operator then not inside else inside

  abbrev pub place_condition : RuleOperator → Option Text → ConditionValue → ConditionOutcome
  place_condition operator none value = missing
  place_condition operator (some operand) value =
      found (folded_test operator operand (or_empty value.list)) (text_operand operand)

  abbrev pub title_condition : RuleOperator → Option Text → ConditionValue → ConditionOutcome
  title_condition operator none value = missing
  title_condition contains (some title) value =
      let needle = fold (needle_of (or_empty value.list) value.value) in
      if is_empty needle then missing else found (includes (fold title) needle) (text_operand title)
  title_condition operator (some title) value =
      found (folded_test operator title (or_empty value.list)) (text_operand title)

  abbrev pub risk_test : RuleOperator → Bool → Bool
  risk_test is_high high = high
  risk_test _ high = not high

  abbrev pub risk_condition : RuleOperator → Option Text → ConditionOutcome
  risk_condition operator none = missing
  risk_condition operator (some flag) =
      if is_empty (trim flag)
      then missing
      else found (risk_test operator (text_eq (host.to_upper_case (trim flag)) (codes "HIGH")))
          (text_operand flag)
