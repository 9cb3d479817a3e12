-- ===== src/Rules/Filters.antt =====
-- src/modules/rules/evaluate.ts: the conditions that each candidate service answers for itself: zone,
-- estimated freight and volumetric weight.
use jsyxi_shipping.Prelude.{
  Bool, true, false, not, ◌||◌, Option, none, some, List, [], ◌∷◌, ◌++◌, map, Text, codes, trim,
  if◌then◌else◌,
}
use jsyxi_shipping.Rules.Model.{
  zone, estimated_freight, volumetric_weight, RuleOperator, equals, between, gte, lte, in_list,
  not_in_list, in_saved_zone, csv_upload, is_cod, is_prepaid, contains, is_high, is_not_high,
  ConditionDef, ConditionGroupDef, RuleDef, CandidateQuote, CandidateFacts, EliminationReason,
  zone_filtered, estimated_freight_filtered, volumetric_weight_filtered, Host,
}
use jsyxi_shipping.Rules.Condition.{numeric_match, or_empty, has_text, is_not_in_list}

pub record ZoneFilter : Type 0 where
  pub negated : Bool
  pub list : List Text

pub record CandidateFilters : Type 0 where
  pub zone : Option ZoneFilter
  pub freight : Option ConditionDef
  pub volumetric : Option ConditionDef

abbrev pub no_filters : CandidateFilters
no_filters = record { zone = none; freight = none; volumetric = none }

-- `!filters.x` before `filters.x = …`: the first condition on a field is the one that counts.
abbrev pub or_first {ℓ} : {A : Type ℓ} → Option A → A → Option A
or_first (some kept) value = some kept
or_first none value = some value

abbrev pub is_some {ℓ} : {A : Type ℓ} → Option A → Bool
is_some none = false
is_some (some _) = true

abbrev pub has_filters : CandidateFilters → Bool
has_filters filters = is_some filters.zone || is_some filters.freight || is_some filters.volumetric

abbrev pub price_of : Option CandidateQuote → Option Text
price_of none = none
price_of (some quote) = if quote.rate_available then quote.total else none

abbrev pub is_true : Option Bool → Bool
is_true (some true) = true
is_true _ = false

abbrev pub operator_text : RuleOperator → Text
operator_text equals = codes "EQUALS"
operator_text between = codes "BETWEEN"
operator_text gte = codes "GTE"
operator_text lte = codes "LTE"
operator_text in_list = codes "IN_LIST"
operator_text not_in_list = codes "NOT_IN_LIST"
operator_text in_saved_zone = codes "IN_SAVED_ZONE"
operator_text csv_upload = codes "CSV_UPLOAD"
operator_text is_cod = codes "IS_COD"
operator_text is_prepaid = codes "IS_PREPAID"
operator_text contains = codes "CONTAINS"
operator_text is_high = codes "IS_HIGH"
operator_text is_not_high = codes "IS_NOT_HIGH"

-- Array.prototype.join
unfoldable pub join : Text → List Text → Text
join separator [] = []
join separator (text ∷ []) = text
join separator (text ∷ next ∷ texts) = text ++ separator ++ join separator (next ∷ texts)

unfoldable pub zone_unresolved : EliminationReason
zone_unresolved = record {
  code = zone_filtered;
  detail = codes "zone unresolved for this candidate (no matching zone-map rule)";
}

unfoldable pub zone_fails : Text → ZoneFilter → EliminationReason
zone_fails own f = record {
  code = zone_filtered;
  detail =
      codes "zone "
      ++ own
      ++ codes " fails "
      ++ operator_text (if f.negated then not_in_list else in_list)
      ++ codes " ["
      ++ join (codes ", ") f.list
      ++ codes "]";
}

unfoldable pub no_price_to_filter : EliminationReason
no_price_to_filter = record {
  code = estimated_freight_filtered;
  detail = codes "no usable price — filter operand unresolvable";
}

unfoldable pub freight_fails : Text → RuleOperator → EliminationReason
freight_fails total operator = record {
  code = estimated_freight_filtered;
  detail = codes "freight " ++ total ++ codes " fails " ++ operator_text operator;
}

unfoldable pub no_volumetric : EliminationReason
no_volumetric = record {
  code = volumetric_weight_filtered;
  detail = codes "volumetric weight unresolvable (missing divisor/dimensions)";
}

unfoldable pub volumetric_fails : Text → RuleOperator → EliminationReason
volumetric_fails kg operator = record {
  code = volumetric_weight_filtered;
  detail = codes "volumetric " ++ kg ++ codes " kg fails " ++ operator_text operator;
}

-- A decimal operand against a filter: a reason where it is null, or where the test is not true.
abbrev pub operand_reasons :
    EliminationReason
    → (Text → RuleOperator → EliminationReason)
    → Option Text
    → ConditionDef
    → List EliminationReason
operand_reasons absent failing none cond = absent ∷ []
operand_reasons absent failing (some operand) cond =
    if is_true (numeric_match cond.operator operand cond.value)
    then []
    else failing operand cond.operator ∷ []

abbrev pub freight_reasons : Option ConditionDef → CandidateFacts → List EliminationReason
freight_reasons none facts = []
freight_reasons (some cond) facts =
    operand_reasons no_price_to_filter freight_fails (price_of facts.quote) cond

abbrev pub volumetric_reasons : Option ConditionDef → CandidateFacts → List EliminationReason
volumetric_reasons none facts = []
volumetric_reasons (some cond) facts =
    operand_reasons no_volumetric volumetric_fails facts.volumetric_weight_kg cond

module _ (host : Host) where
  abbrev pub zone_filter_of : ConditionDef → ZoneFilter
  zone_filter_of cond = record {
    negated = is_not_in_list cond.operator;
    list = map (λ z. host.to_upper_case (trim z)) (or_empty cond.value.list);
  }

  unfoldable pub collect_condition : CandidateFilters → ConditionDef → CandidateFilters
  collect_condition filters cond = elim cond.field [
    | zone ↦ record filters { zone = or_first filters.zone (zone_filter_of cond) }
    | estimated_freight ↦ record filters { freight = or_first filters.freight cond }
    | volumetric_weight ↦ record filters { volumetric = or_first filters.volumetric cond }
    | _ ↦ filters
  ]

  unfoldable pub collect_conditions : CandidateFilters → List ConditionDef → CandidateFilters
  unfolding collect_condition
  collect_conditions filters [] = filters
  collect_conditions filters (cond ∷ conditions) =
      collect_conditions (collect_condition filters cond) conditions

  unfoldable pub collect_groups : CandidateFilters → List ConditionGroupDef → CandidateFilters
  unfolding collect_conditions
  collect_groups filters [] = filters
  collect_groups filters (group ∷ groups) =
      collect_groups (collect_conditions filters group.conditions) groups

  unfoldable pub collect_candidate_filters : RuleDef → CandidateFilters
  unfolding collect_groups
  collect_candidate_filters rule = collect_groups no_filters rule.groups

  abbrev pub zone_passes : ZoneFilter → Text → Bool
  zone_passes f own =
      let inside = has_text (host.to_upper_case own) f.list in
      if f.negated then not inside else inside

  abbrev pub zone_reasons : Option ZoneFilter → Option Text → List EliminationReason
  zone_reasons none own = []
  zone_reasons (some f) none = zone_unresolved ∷ []
  zone_reasons (some f) (some own) = if zone_passes f own then [] else zone_fails own f ∷ []

  unfoldable pub candidate_filter_reasons :
      CandidateFacts → CandidateFilters → List EliminationReason
  candidate_filter_reasons facts filters =
      zone_reasons filters.zone facts.zone
      ++ freight_reasons filters.freight facts
      ++ volumetric_reasons filters.volumetric facts
