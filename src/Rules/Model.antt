-- ===== src/Rules/Model.antt =====
-- The data of src/modules/rules/evaluate.ts. An instant is its number of milliseconds; a field that may
-- be null or absent is an Option; a price, a weight or a date is its text.
use jsyxi_shipping.Prelude.{ℕ, Bool, Option, List, Text}
use jsyxi_shipping.Prelude.Int.{ℤ}
use jsyxi_shipping.Derivation.Payment.{PaymentMode}

pub data RuleActionType : Type 0 where
  priority_chain cheapest fastest manual_only : RuleActionType

pub data RuleConditionField : Type 0 where
  weight order_amount payment_mode pincode sku tag dest_state dest_city zone : RuleConditionField
  cod_amount estimated_freight checkout_shipping_title : RuleConditionField
  checkout_shipping_amount item_count product vendor collection : RuleConditionField
  volumetric_weight risk_flag weekday time_of_day : RuleConditionField

pub data RuleOperator : Type 0 where
  equals between gte lte in_list not_in_list in_saved_zone csv_upload : RuleOperator
  is_cod is_prepaid contains is_high is_not_high : RuleOperator

-- `zoneId`, which the evaluation does not read, is left out.
pub record ConditionValue : Type 0 where
  pub value : Option Text
  pub min : Option Text
  pub max : Option Text
  pub list : Option (List Text)
  pub pincodes : Option (List Text)

pub record ConditionDef : Type 0 where
  pub field : RuleConditionField
  pub operator : RuleOperator
  pub value : ConditionValue

pub record ConditionGroupDef : Type 0 where
  pub position : ℕ
  pub conditions : List ConditionDef

pub record RuleDef : Type 0 where
  pub rule_id : Text
  pub name : Text
  pub version : ℕ
  pub is_active : Bool
  pub position : ℕ
  pub action_type : RuleActionType
  pub excluded_service_ids : List Text
  pub active_from : Option Text
  pub active_to : Option Text
  pub groups : List ConditionGroupDef
  pub action_service_ids : List Text

pub record OrderFacts : Type 0 where
  pub dead_weight_kg : Option Text
  pub order_amount : Option Text
  pub payment_mode : PaymentMode
  pub destination_pincode : Option Text
  pub skus : List (Option Text)
  pub tags : List Text
  pub dest_state : Option Text
  pub dest_city : Option Text
  pub cod_amount : Option Text
  pub checkout_shipping_title : Option Text
  pub checkout_shipping_amount : Option Text
  pub item_count : Option ℕ
  pub products : List (Option Text)
  pub vendors : List (Option Text)
  pub collections : List (Option Text)
  pub risk_flag : Option Text

pub record CandidateQuote : Type 0 where
  pub serviceable : Bool
  pub failure_reasons : List Text
  pub rate_available : Bool
  pub total : Option Text
  pub edd_from : Option Text
  pub edd_to : Option Text
  pub fetched_at : Option Text

pub data CostSource : Type 0 where
  rate_card live_quote no_source : CostSource

pub record CandidateFacts : Type 0 where
  pub service_id : Text
  pub courier_account_id : Option Text
  pub cost_source : CostSource
  pub bookable : Bool
  pub not_bookable_reason : Option Text
  pub priority_tiebreak_order : ℤ
  pub quote : Option CandidateQuote
  pub quote_error : Option Text
  pub zone : Option Text
  pub volumetric_weight_kg : Option Text

pub record EvaluateInput : Type 0 where
  pub now : ℤ
  pub shop_timezone : Text
  pub edd_stale_ms : ℤ
  pub rules : List RuleDef
  pub order : OrderFacts
  pub candidates : List CandidateFacts
  pub default_chain_service_ids : Option (List Text)

pub data RuleTraceStatus : Type 0 where
  matched no_match skipped_inactive skipped_schedule not_evaluated : RuleTraceStatus

pub data ConditionNote : Type 0 where
  note_ok missing_data deferred_to_candidates : ConditionNote

-- The `unknown` of a trace: what the code stores there.
pub data Operand : Type 0 where
  null_operand : Operand
  text_operand : Text → Operand
  number_operand : ℕ → Operand
  texts_operand : List (Option Text) → Operand
  payment_operand : PaymentMode → Operand

pub record ConditionTrace : Type 0 where
  pub field : RuleConditionField
  pub operator : RuleOperator
  pub value : ConditionValue
  pub operand : Operand
  pub is_match : Bool
  pub note : ConditionNote

pub record GroupTrace : Type 0 where
  pub position : ℕ
  pub is_match : Bool
  pub conditions : List ConditionTrace

pub record RuleTrace : Type 0 where
  pub rule_id : Text
  pub name : Text
  pub version : ℕ
  pub position : ℕ
  pub status : RuleTraceStatus
  pub groups : List GroupTrace

pub data EliminationCode : Type 0 where
  service_unknown excluded_by_rule not_bookable not_serviceable : EliminationCode
  zone_filtered estimated_freight_filtered volumetric_weight_filtered : EliminationCode
  price_unavailable edd_missing edd_stale : EliminationCode

pub record EliminationReason : Type 0 where
  pub code : EliminationCode
  pub detail : Text

pub record CandidateResult : Type 0 where
  pub service_id : Text
  pub cost_source : Option CostSource
  pub cost : Option Text
  pub edd_from : Option Text
  pub edd_to : Option Text
  pub quote_fetched_at : Option Text
  pub zone : Option Text
  pub volumetric_weight_kg : Option Text
  pub eliminated : Bool
  pub reasons : List EliminationReason
  pub selected : Bool

pub data ManualAssignmentReason : Type 0 where
  held_by_rule chain_exhausted no_serviceable_candidate : ManualAssignmentReason
  no_rule_and_no_default_chain : ManualAssignmentReason

pub data FallbackKind : Type 0 where
  s22_default_chain chain_fallback : FallbackKind

pub record FallbackChainTrace : Type 0 where
  pub kind : FallbackKind
  pub note : Text
  pub service_ids : List Text

pub data EvaluationOutcome : Type 0 where
  service_selected : Text → EvaluationOutcome
  manual_assignment : ManualAssignmentReason → EvaluationOutcome

pub record EvaluationResult : Type 0 where
  pub matched_rule_id : Option Text
  pub matched_rule_version : Option ℕ
  pub rule_traces : List RuleTrace
  pub candidate_results : List CandidateResult
  pub selected_service_id : Option Text
  pub fallback_chain : Option FallbackChainTrace
  pub outcome : EvaluationOutcome

pub data WeekdayCode : Type 0 where
  mon tue wed thu fri sat sun : WeekdayCode

-- A part that Intl.DateTimeFormat.formatToParts yields: the text of a weekday, the number of an hour or
-- a minute, or what the code passes over.
pub data FormatPart : Type 0 where
  weekday_part : Text → FormatPart
  hour_part minute_part : ℕ → FormatPart
  other_part : FormatPart

-- What the host of the language decides: toLowerCase, toUpperCase, Number where it gives an integer,
-- Date.parse where it is not NaN, and Intl.DateTimeFormat in a time zone.
pub record Host : Type 0 where
  pub to_lower_case : Text → Text
  pub to_upper_case : Text → Text
  pub integer_of : Text → Option ℤ
  pub date_parse : Text → Option ℤ
  pub format_to_parts : ℤ → Text → List FormatPart

pub record LocalParts : Type 0 where
  pub day : WeekdayCode
  pub minutes_of_day : ℕ
