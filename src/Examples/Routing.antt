-- ===== src/Examples/Routing.antt =====
-- The rules engine on a rule for Maharashtra with three services, and on a rule whose services have no
-- price.
use jsyxi_shipping.Prelude.{
  ◌≡◌, refl, ◌&&◌, Bool, true, false, none, some, Option, ℕ, ◌+◌, ◌-◌, List, [], ◌∷◌, map, codes,
  Text, text_eq, trim, drop_spaces, is_space, decimal_groups, span_digits, fraction, digits_value,
  digits_value_from, leb, All, find, if◌then◌else◌,
}
use jsyxi_shipping.Prelude.Int.{pos, ◌-ℤ◌}
use jsyxi_shipping.Prelude.Decimal.{scaled}
use jsyxi_shipping.Prelude.Compare.{insert_compare, sort_compare}
use jsyxi_shipping.Derivation.Payment.{prepaid}
use jsyxi_shipping.Rules.Model.{
  RuleActionType, priority_chain, cheapest, dest_state, in_list, RuleDef, OrderFacts,
  CandidateQuote, CandidateFacts, rate_card, EvaluateInput, weekday_part, hour_part, minute_part,
  Host, LocalParts, mon,
}
use jsyxi_shipping.Rules.Decimals.{cmp_decimal, parse_decimal, signed_decimal}
use jsyxi_shipping.Rules.LocalTime.{read_parts, shop_local_parts, weekday_from_short}
use jsyxi_shipping.Rules.OrderCondition.{eval_condition}
use jsyxi_shipping.Rules.Filters.{
  collect_candidate_filters, collect_groups, collect_conditions, collect_condition,
}
use jsyxi_shipping.Rules.Scan.{scan_rules, visit_rule, outside_schedule}
use jsyxi_shipping.Rules.Candidates.{
  build_run, enter, result_for, update_result, entry_reasons, facts_for, new_result,
}
use jsyxi_shipping.Rules.Condition.{has_text}
use jsyxi_shipping.Rules.FirstMatch.{IsFirstMatch, scan_rules-IsFirstMatch}
use jsyxi_shipping.Rules.MatchedRule.{evaluate-find, id_of, is_applicable}
use jsyxi_shipping.Rules.Selection.{IsEligible}
use jsyxi_shipping.Rules.Selection.Action.{evaluate-IsEligible}
use jsyxi_shipping.Rules.Selectable.{
  IsSelected, is_selectable, run_action-IsSelected, run_chain-find,
}
use jsyxi_shipping.Rules.Cheapest.Screened.{IsDecimalPriced}
use jsyxi_shipping.Rules.Cheapest.Least.{SelectsNoBetter, run_action-SelectsNoBetter}
use jsyxi_shipping.Rules.Results.{HasMarks}
use jsyxi_shipping.Rules.Results.Once.{IsOnePerService, evaluate-MarksOnce}
use jsyxi_shipping.Rules.Choice.{
  facts_priced, compare_cost, screen, serviceable, usable_price, against_price,
}
use jsyxi_shipping.Rules.Evaluate.{
  take_first, run_action_as, evaluate, run_action, run_chain, pick_first, done,
}

abbrev lower : ℕ → ℕ
lower c = if leb b'A' c && leb c b'Z' then c + 32 else c

abbrev upper : ℕ → ℕ
upper c = if leb b'a' c && leb c b'z' then c - 32 else c

-- A host for ASCII texts, at ten on a Monday, which reads no dates.
abbrev ascii_host : Host
ascii_host = record {
  to_lower_case = map lower;
  to_upper_case = map upper;
  integer_of = λ text. none;
  date_parse = λ text. none;
  format_to_parts = λ now zone. weekday_part (codes "Mon") ∷ hour_part 10 ∷ minute_part 0 ∷ [];
}

abbrev quote_at : Option Text → CandidateQuote
quote_at total = record {
  serviceable = true;
  failure_reasons = [];
  rate_available = true;
  total = total;
  edd_from = none;
  edd_to = none;
  fetched_at = none;
}

abbrev service : Text → Option Text → CandidateFacts
service id total = record {
  service_id = id;
  courier_account_id = none;
  cost_source = rate_card;
  bookable = true;
  not_bookable_reason = none;
  priority_tiebreak_order = pos 0;
  quote = some (quote_at total);
  quote_error = none;
  zone = none;
  volumetric_weight_kg = none;
}

abbrev mumbai_order : OrderFacts
mumbai_order = record {
  dead_weight_kg = none;
  order_amount = none;
  payment_mode = prepaid;
  destination_pincode = none;
  skus = [];
  tags = [];
  dest_state = some (codes "Maharashtra");
  dest_city = none;
  cod_amount = none;
  checkout_shipping_title = none;
  checkout_shipping_amount = none;
  item_count = none;
  products = [];
  vendors = [];
  collections = [];
  risk_flag = none;
}

abbrev rule_for : Text → RuleActionType → Bool → Text → List Text → RuleDef
rule_for id action active state services = record {
  rule_id = id;
  name = id;
  version = 1;
  is_active = active;
  position = 1;
  action_type = action;
  excluded_service_ids = codes "x" ∷ [];
  active_from = none;
  active_to = none;
  groups =
      record {
        position = 1;
        conditions =
            record {
              field = dest_state;
              operator = in_list;
              value = record {
                value = none;
                min = none;
                max = none;
                list = some (state ∷ []);
                pincodes = none;
              };
            }
            ∷ [];
      }
      ∷ [];
  action_service_ids = services;
}

abbrev cheap_rule : RuleDef
cheap_rule =
    rule_for (codes "r2") cheapest true (codes " maharashtra ")
      (codes "a" ∷ codes "b" ∷ codes "x" ∷ [])

abbrev three_rules : List RuleDef
three_rules =
    rule_for (codes "r0") priority_chain false (codes "maharashtra") (codes "a" ∷ [])
    ∷ rule_for (codes "r1") priority_chain true (codes "kerala") (codes "a" ∷ [])
    ∷ cheap_rule
    ∷ rule_for (codes "r3") priority_chain true (codes "maharashtra") (codes "b" ∷ [])
    ∷ []

abbrev mumbai_input : EvaluateInput
mumbai_input = record {
  now = pos 0;
  shop_timezone = codes "Asia/Kolkata";
  edd_stale_ms = pos 21600000;
  rules = three_rules;
  order = mumbai_order;
  candidates =
      service (codes "a") (some (codes "120.00"))
      ∷ service (codes "b") (some (codes "99.5"))
      ∷ service (codes "x") (some (codes "10"))
      ∷ [];
  default_chain_service_ids = some (codes "a" ∷ []);
}

selects_b : (evaluate ascii_host mumbai_input).selected_service_id ≡ some (codes "b")
unfolding evaluate scan_rules visit_rule outside_schedule eval_condition text_eq trim drop_spaces
    is_space run_action run_action_as pick_first take_first sort_compare insert_compare screen
    build_run enter result_for update_result new_result entry_reasons facts_for
    collect_candidate_filters collect_groups collect_conditions collect_condition against_price
    serviceable usable_price compare_cost cmp_decimal parse_decimal signed_decimal decimal_groups
    span_digits fraction scaled digits_value digits_value_from done ◌-ℤ◌ shop_local_parts read_parts
    weekday_from_short
selects_b = refl

action_selects_b :
    (run_action ascii_host mumbai_input [] cheap_rule).selected_service_id ≡ some (codes "b")
unfolding run_action run_action_as pick_first take_first sort_compare insert_compare screen
    build_run enter result_for update_result new_result entry_reasons facts_for text_eq trim
    drop_spaces is_space collect_candidate_filters collect_groups collect_conditions
    collect_condition against_price serviceable usable_price compare_cost cmp_decimal parse_decimal
    signed_decimal decimal_groups span_digits fraction scaled digits_value digits_value_from done
    ◌-ℤ◌
action_selects_b = refl

abbrev monday_morning : LocalParts
monday_morning = record { day = mon; minutes_of_day = 600 }

third_rule_matches :
    (scan_rules ascii_host (pos 0) mumbai_order monday_morning none three_rules).1 ≡ some cheap_rule
unfolding scan_rules visit_rule outside_schedule eval_condition text_eq trim drop_spaces is_space
    shop_local_parts read_parts weekday_from_short
third_rule_matches = refl

a_is_open : is_selectable ascii_host mumbai_input cheap_rule (codes "a") ≡ true
unfolding entry_reasons facts_for text_eq collect_candidate_filters collect_groups
    collect_conditions collect_condition
a_is_open = refl

a_is_listed : has_text (codes "a") cheap_rule.action_service_ids ≡ true
unfolding text_eq
a_is_listed = refl

a_is_priced : facts_priced (facts_for mumbai_input.candidates (codes "a")) ≡ true
unfolding facts_for text_eq
a_is_priced = refl

prices_are_decimal : All IsDecimalPriced mumbai_input.candidates
unfolding parse_decimal signed_decimal decimal_groups span_digits fraction trim drop_spaces is_space
prices_are_decimal = (refl, (refl, (refl, tt)))

evaluate-find_example :
    (evaluate ascii_host mumbai_input).matched_rule_id
    ≡ id_of ascii_host mumbai_input (find (is_applicable ascii_host mumbai_input) three_rules)
evaluate-find_example = evaluate-find ascii_host mumbai_input

scan_rules-IsFirstMatch_example :
    IsFirstMatch ascii_host
      (pos 0)
      mumbai_order
      monday_morning
      cheap_rule
      three_rules
      (scan_rules ascii_host (pos 0) mumbai_order monday_morning none three_rules).0
scan_rules-IsFirstMatch_example =
    scan_rules-IsFirstMatch ascii_host (pos 0) mumbai_order monday_morning three_rules cheap_rule
      third_rule_matches

evaluate-IsEligible_example : IsEligible mumbai_input.candidates (codes "b")
evaluate-IsEligible_example = evaluate-IsEligible ascii_host mumbai_input (codes "b") selects_b

run_action-IsSelected_example :
    IsSelected ascii_host mumbai_input cheap_rule
      (run_action ascii_host mumbai_input [] cheap_rule)
      (codes "b")
run_action-IsSelected_example =
    run_action-IsSelected ascii_host mumbai_input cheap_rule [] (codes "b") action_selects_b

run_chain-find_example :
    (run_chain ascii_host mumbai_input [] cheap_rule).selected_service_id
    ≡ find (is_selectable ascii_host mumbai_input cheap_rule) cheap_rule.action_service_ids
run_chain-find_example = run_chain-find ascii_host mumbai_input cheap_rule []

run_action-SelectsNoBetter_example :
    SelectsNoBetter ascii_host mumbai_input [] cheap_rule
      (run_action ascii_host mumbai_input [] cheap_rule)
      (codes "a")
run_action-SelectsNoBetter_example =
    run_action-SelectsNoBetter ascii_host mumbai_input [] cheap_rule (codes "a") refl
      prices_are_decimal a_is_listed a_is_open a_is_priced

evaluate-MarksOnce_example :
    HasMarks ascii_host mumbai_input (evaluate ascii_host mumbai_input)
    × IsOnePerService (evaluate ascii_host mumbai_input).candidate_results
evaluate-MarksOnce_example = evaluate-MarksOnce ascii_host mumbai_input
