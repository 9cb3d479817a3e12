-- ===== src/Rules/Evaluate.antt =====
-- src/modules/rules/evaluate.ts: `evaluate`, the choice of a service by the first rule that matches.
pub mod Loops
use jsyxi_shipping.Prelude.{
  Bool, true, false, not, Option, none, some, List, [], ◌∷◌, ◌++◌, Text, codes, filter, is_empty,
  if◌then◌else◌,
}
use jsyxi_shipping.Prelude.Int.{ℤ, pos, ltb_ℤ, eq_ℤ, ◌-ℤ◌}
use jsyxi_shipping.Prelude.Compare.{sort_compare}
use jsyxi_shipping.Rules.Model.{
  priority_chain, cheapest, fastest, manual_only, RuleActionType, RuleDef, CandidateQuote,
  CandidateFacts, CostSource, no_source, EvaluateInput, RuleTrace, EliminationReason,
  not_serviceable, price_unavailable, edd_missing, edd_stale, CandidateResult, held_by_rule,
  chain_exhausted, no_serviceable_candidate, no_rule_and_no_default_chain, FallbackKind,
  s22_default_chain, chain_fallback, FallbackChainTrace, EvaluationOutcome, service_selected,
  manual_assignment, EvaluationResult, Host,
}
use jsyxi_shipping.Rules.Decimals.{cmp_decimal}
use jsyxi_shipping.Rules.LocalTime.{shop_local_parts}
use jsyxi_shipping.Rules.Filters.{
  CandidateFilters, collect_candidate_filters, has_filters, is_some, join,
}
use jsyxi_shipping.Rules.Scan.{scan_rules}
use jsyxi_shipping.Rules.Candidates.{
  Store, RunCandidate, and_then, build_run, eliminate, eliminated_in, get_result, mark_selected,
  or_text, quote_of, update_result,
}
use jsyxi_shipping.Rules.Choice.{
  quote_serviceable, facts_serviceable, serviceable, has_source, quote_price, facts_priced,
  usable_price, EddState, failure_reasons_of, text_or, not_serviceable_reason, unpriced_text,
  price_reason, fetched_at_of, edd_reason, run_priority_chain, screen, against_price, result_text,
  or_zero, facts_tiebreak, tiebreak_of, compare_ties, cost_in, compare_cost, usable, missing, stale,
}

abbrev pub not_selected : Bool → EvaluationOutcome
not_selected true = manual_assignment no_serviceable_candidate
not_selected false = manual_assignment no_rule_and_no_default_chain

abbrev pub selected_id : EvaluationOutcome → Option Text
selected_id (service_selected id) = some id
selected_id (manual_assignment reason) = none

abbrev pub picked_outcome : Option RunCandidate → EvaluationOutcome
picked_outcome none = manual_assignment chain_exhausted
picked_outcome (some c) = service_selected c.service_id

abbrev pub or_no_services : Option (List Text) → List Text
or_no_services none = []
or_no_services (some ids) = ids

unfoldable pub no_rule_note : Text
no_rule_note = codes "no rule matched — evaluated S-22 as PRIORITY_CHAIN"

unfoldable pub price_note : Text
price_note = codes "price unavailable — fell back to chain"

unfoldable pub edd_note : Text
edd_note = codes "no usable EDD — fell back to chain"

module _ (host : Host) (input : EvaluateInput) where
  unfoldable pub edd_state : RunCandidate → EddState
  edd_state c = elim (quote_of c.facts) [
    | none ↦ missing
    | some quote ↦ elim quote.edd_to [
      | none ↦ missing
      | some edd_to ↦ elim quote.fetched_at [
        | none ↦ missing
        | some fetched_at ↦ elim (host.date_parse fetched_at) [
          | none ↦ usable
          | some fetched ↦ if ltb_ℤ input.edd_stale_ms (input.now -ℤ fetched) then stale else usable
        ]
      ]
    ]
  ]

  unfoldable pub against_edd : RunCandidate → Option EliminationReason
  against_edd c =
      if not (serviceable c)
      then some (not_serviceable_reason c)
      else elim (edd_state c) [ usable ↦ none | state ↦ some (edd_reason state c) ]

  abbrev pub edd_in : Store → RunCandidate → Option ℤ
  edd_in store c =
      host.date_parse (or_text (result_text (λ (r : CandidateResult). r.edd_to) store c) [])

  -- NaN is not zero, so it is the result, which the sort takes for zero.
  unfoldable pub compare_edd : Store → RunCandidate → RunCandidate → ℤ
  compare_edd store a b = elim (edd_in store a) [
    | none ↦ pos 0
    | some x ↦ elim (edd_in store b) [
      | none ↦ pos 0
      | some y ↦ if not (eq_ℤ (x -ℤ y) (pos 0)) then x -ℤ y else compare_ties a b
    ]
  ]

  module _ (traces : List RuleTrace) (hit : Option RuleDef) where
    unfoldable pub done : Store → EvaluationOutcome → Option FallbackChainTrace → EvaluationResult
    done store outcome fallback = record {
      matched_rule_id = and_then hit (λ (r : RuleDef). some r.rule_id);
      matched_rule_version = and_then hit (λ (r : RuleDef). some r.version);
      rule_traces = traces;
      candidate_results = store;
      selected_service_id = selected_id outcome;
      fallback_chain = fallback;
      outcome = outcome;
    }

    abbrev pub chain_outcome : Option RunCandidate → EvaluationOutcome
    chain_outcome none = not_selected (is_some hit)
    chain_outcome (some c) = service_selected c.service_id

    unfoldable pub default_chain_over : Text → FallbackKind → Store → List Text → EvaluationResult
    unfolding done
    default_chain_over note kind store [] =
        done store (not_selected (is_some hit))
          (some (record { kind = kind; note = note ++ codes "; S-22 unset"; service_ids = [] }))
    default_chain_over note kind store (first ∷ others) =
        let (run, built) = build_run host input.candidates [] none 0 (first ∷ others) store in
        let (picked, after) = run_priority_chain run built in
        done after (chain_outcome picked)
          (some (record { kind = kind; note = note; service_ids = first ∷ others }))

    unfoldable pub run_default_chain : Text → FallbackKind → Store → EvaluationResult
    unfolding default_chain_over
    run_default_chain note kind store =
        default_chain_over note kind store (or_no_services input.default_chain_service_ids)

  unfoldable pub no_rule : List RuleTrace → EvaluationResult
  no_rule traces =
      if is_empty (or_no_services input.default_chain_service_ids)
      then done traces none [] (manual_assignment no_rule_and_no_default_chain) none
      else run_default_chain traces none no_rule_note s22_default_chain []

  module _ (rule : RuleDef) where
    -- The run of the rule's action, and those of it that no reason eliminates.
    abbrev pub action_filters : Option CandidateFilters
    action_filters =
        let filters = collect_candidate_filters host rule in
        if has_filters filters then some filters else none

    abbrev pub action_run : List RunCandidate × Store
    action_run =
        build_run host input.candidates rule.excluded_service_ids action_filters 0
          rule.action_service_ids []

    abbrev pub survivors : List RunCandidate
    survivors = filter (λ c. not (eliminated_in action_run.1 c)) action_run.0

  module _ (traces : List RuleTrace) (rule : RuleDef) where
    unfoldable pub run_chain : EvaluationResult
    run_chain =
        let (picked, after) = run_priority_chain (survivors rule) (action_run rule).1 in
        done traces (some rule) after (picked_outcome picked) none

    -- `sorted[0]` where the list is not empty, which the code tests before it sorts.
    unfoldable pub take_first : Text → Store → List RunCandidate → EvaluationResult
    take_first note store [] = run_default_chain traces (some rule) note chain_fallback store
    take_first note store (c ∷ _) =
        done traces (some rule) (update_result mark_selected c.service_id store)
          (service_selected c.service_id) none

    unfoldable pub pick_first :
        (Store → RunCandidate → RunCandidate → ℤ)
        → Text
        → List RunCandidate × Store
        → EvaluationResult
    unfolding take_first
    pick_first compare note (kept, store) =
        take_first note store (sort_compare (compare store) kept)

    unfoldable pub run_action_as : RuleActionType → EvaluationResult
    run_action_as manual_only = done traces (some rule) [] (manual_assignment held_by_rule) none
    run_action_as priority_chain = run_chain
    run_action_as cheapest =
        pick_first compare_cost price_note
          (screen against_price (survivors rule) (action_run rule).1)
    run_action_as fastest =
        pick_first compare_edd edd_note (screen against_edd (survivors rule) (action_run rule).1)

    unfoldable pub run_action : EvaluationResult
    unfolding run_action_as
    run_action = run_action_as rule.action_type

  abbrev pub scanned : List RuleTrace × Option RuleDef
  scanned =
      scan_rules host input.now input.order (shop_local_parts host input.now input.shop_timezone)
        none input.rules

  abbrev pub result_of : List RuleTrace → Option RuleDef → EvaluationResult
  result_of traces none = no_rule traces
  result_of traces (some rule) = run_action traces rule

  unfoldable pub evaluate : EvaluationResult
  evaluate = result_of scanned.0 scanned.1
