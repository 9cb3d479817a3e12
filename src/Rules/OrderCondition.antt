-- ===== src/Rules/OrderCondition.antt =====
-- src/modules/rules/evaluate.ts: `evalCondition`, a condition of a rule against an order, field by field.
use jsyxi_shipping.Prelude.{
  ℕ, ◌/◌, ◌%◌, Bool, true, ◌&&◌, ◌||◌, Option, none, some, List, [], ◌∷◌, ◌++◌, map, Text, any,
  is_empty, leb, pad_start, to_text, ◌==◌, if◌then◌else◌,
}
use jsyxi_shipping.Rules.Model.{
  RuleConditionField, weight, order_amount, payment_mode, pincode, sku, tag, dest_state, dest_city,
  cod_amount, checkout_shipping_title, checkout_shipping_amount, item_count, product, vendor,
  collection, risk_flag, weekday, time_of_day, RuleOperator, between, ConditionValue, ConditionDef,
  OrderFacts, deferred_to_candidates, null_operand, text_operand, WeekdayCode, mon, tue, wed, thu,
  fri, sat, sun, Host, LocalParts,
}
use jsyxi_shipping.Rules.LocalTime.{normalize_weekday, parse_time_of_day}
use jsyxi_shipping.Rules.Condition.{
  ConditionOutcome, missing, found, candidate_level, numeric_condition, item_count_condition,
  payment_condition, pincode_condition, lines_condition, place_condition, title_condition,
  risk_condition, or_empty,
}

abbrev pub day_number : WeekdayCode → ℕ
day_number mon = 1
day_number tue = 2
day_number wed = 3
day_number thu = 4
day_number fri = 5
day_number sat = 6
day_number sun = 7

abbrev pub day_code : WeekdayCode → Text
day_code mon = b'M' ∷ b'O' ∷ b'N' ∷ []
day_code tue = b'T' ∷ b'U' ∷ b'E' ∷ []
day_code wed = b'W' ∷ b'E' ∷ b'D' ∷ []
day_code thu = b'T' ∷ b'H' ∷ b'U' ∷ []
day_code fri = b'F' ∷ b'R' ∷ b'I' ∷ []
day_code sat = b'S' ∷ b'A' ∷ b'T' ∷ []
day_code sun = b'S' ∷ b'U' ∷ b'N' ∷ []

abbrev pub keep_day : Option WeekdayCode → List WeekdayCode → List WeekdayCode
keep_day none days = days
keep_day (some day) days = day ∷ days

-- `${hours}:${minutes}`, each on two digits
abbrev pub clock_text : ℕ → Text
clock_text t = pad_start 2 b'0' (to_text (t / 60)) ++ b':' ∷ pad_start 2 b'0' (to_text (t % 60))

-- Inclusive, and past midnight where the window ends before it starts.
unfoldable pub within_window : ℕ → ℕ → ℕ → Bool
within_window lo hi t = if leb lo hi then leb lo t && leb t hi else leb lo t || leb t hi

abbrev pub window_condition : Option ℕ → Option ℕ → ℕ → ConditionOutcome
window_condition (some lo) (some hi) t = found (within_window lo hi t) (text_operand (clock_text t))
window_condition _ _ t = missing

abbrev pub parse_bound : Option Text → Option ℕ
parse_bound none = none
parse_bound (some value) = parse_time_of_day value

abbrev pub time_condition : RuleOperator → ConditionValue → ℕ → ConditionOutcome
time_condition between value t = window_condition (parse_bound value.min) (parse_bound value.max) t
time_condition _ value t = missing

abbrev pub text_lines : List Text → List (Option Text)
text_lines texts = map some texts

module _ (host : Host) where
  abbrev pub wanted_days : List Text → List WeekdayCode
  wanted_days [] = []
  wanted_days (text ∷ texts) = keep_day (normalize_weekday host text) (wanted_days texts)

  abbrev pub weekday_condition : List Text → WeekdayCode → ConditionOutcome
  weekday_condition list day =
      let wanted = wanted_days list in
      if is_empty wanted
      then missing
      else found (any (λ d. day_number d == day_number day) wanted) (text_operand (day_code day))

  abbrev pub field_condition :
      RuleConditionField
      → RuleOperator
      → ConditionValue
      → OrderFacts
      → LocalParts
      → ConditionOutcome
  field_condition weight operator value order local =
      numeric_condition operator order.dead_weight_kg value
  field_condition order_amount operator value order local =
      numeric_condition operator order.order_amount value
  field_condition cod_amount operator value order local =
      numeric_condition operator order.cod_amount value
  field_condition checkout_shipping_amount operator value order local =
      numeric_condition operator order.checkout_shipping_amount value
  field_condition item_count operator value order local =
      item_count_condition operator order.item_count value
  field_condition payment_mode operator value order local =
      payment_condition operator order.payment_mode
  field_condition pincode operator value order local =
      pincode_condition operator order.destination_pincode value
  field_condition sku operator value order local = lines_condition operator order.skus value
  field_condition product operator value order local = lines_condition operator order.products value
  field_condition vendor operator value order local = lines_condition operator order.vendors value
  field_condition collection operator value order local =
      lines_condition operator order.collections value
  field_condition tag operator value order local =
      lines_condition operator (text_lines order.tags) value
  field_condition dest_state operator value order local =
      place_condition host operator order.dest_state value
  field_condition dest_city operator value order local =
      place_condition host operator order.dest_city value
  field_condition checkout_shipping_title operator value order local =
      title_condition host operator order.checkout_shipping_title value
  field_condition risk_flag operator value order local =
      risk_condition host operator order.risk_flag
  field_condition weekday operator value order local =
      weekday_condition (or_empty value.list) local.day
  field_condition time_of_day operator value order local =
      time_condition operator value local.minutes_of_day
  field_condition _ operator value order local = missing

  unfoldable pub eval_condition : ConditionDef → OrderFacts → LocalParts → ConditionOutcome
  eval_condition cond order local =
      if candidate_level cond.field
      then record { is_match = true; operand = null_operand; note = deferred_to_candidates }
      else field_condition cond.field cond.operator cond.value order local
