-- ===== src/Rules/MatchedRule.antt =====
-- Every branch of `evaluate` reports the rule that the scan matched.
use jsyxi_shipping.Prelude.{
  ◌≡◌, refl, ap, ◌∙◌, inl, inr, Bool, Option, none, some, List, [], ◌∷◌, Text, Bool-cases, find,
  is_empty,
}
use jsyxi_shipping.Rules.Model.{
  RuleDef, RuleTrace, EvaluateInput, FallbackKind, RuleActionType, manual_only, priority_chain,
  cheapest, fastest, Host,
}
use jsyxi_shipping.Rules.LocalTime.{shop_local_parts}
use jsyxi_shipping.Rules.Candidates.{Store, RunCandidate, and_then}
use jsyxi_shipping.Rules.Evaluate.{
  default_chain_over, done, evaluate, no_rule, or_no_services, pick_first, result_of, run_action,
  run_action_as, run_chain, run_default_chain, scanned, take_first,
}
use jsyxi_shipping.Rules.FirstMatch.{applies, scan_rules-find}

module _ (host : Host) (input : EvaluateInput) where
  abbrev pub is_applicable : RuleDef → Bool
  is_applicable =
      applies host input.now input.order (shop_local_parts host input.now input.shop_timezone)

  abbrev pub id_of : Option RuleDef → Option Text
  id_of hit = and_then hit (λ (r : RuleDef). some r.rule_id)

  default_chain_over-matched :
      (traces : List RuleTrace) (hit : Option RuleDef) (note : Text) (kind : FallbackKind)
      (store : Store) (ids : List Text)
      → (default_chain_over host input traces hit note kind store ids).matched_rule_id ≡ id_of hit
  unfolding default_chain_over done
  default_chain_over-matched traces hit note kind store [] = refl
  default_chain_over-matched traces hit note kind store (first ∷ others) = refl

  take_first-matched :
      (traces : List RuleTrace) (rule : RuleDef) (note : Text) (store : Store)
      (sorted : List RunCandidate)
      → (take_first host input traces rule note store sorted).matched_rule_id ≡ some rule.rule_id
  unfolding take_first run_default_chain done
  take_first-matched traces rule note store [] =
      default_chain_over-matched traces (some rule) note _ store _
  take_first-matched traces rule note store (c ∷ sorted) = refl

  run_action_as-matched :
      (traces : List RuleTrace) (rule : RuleDef) (action : RuleActionType)
      → (run_action_as host input traces rule action).matched_rule_id ≡ some rule.rule_id
  unfolding run_action_as run_chain pick_first done
  run_action_as-matched traces rule manual_only = refl
  run_action_as-matched traces rule priority_chain = refl
  run_action_as-matched traces rule cheapest = take_first-matched traces rule _ _ _
  run_action_as-matched traces rule fastest = take_first-matched traces rule _ _ _

  result_of-matched :
      (traces : List RuleTrace) (hit : Option RuleDef)
      → (result_of host input traces hit).matched_rule_id ≡ id_of hit
  unfolding no_rule run_default_chain run_action done
  result_of-matched traces none =
      elim (Bool-cases (is_empty (or_no_services input.default_chain_service_ids))) [
        | inl unset ↦ rw unset refl
        | inr given ↦ rw given (default_chain_over-matched traces none _ _ [] _)
      ]
  result_of-matched traces (some rule) = run_action_as-matched traces rule rule.action_type

  -- Whatever the outcome, the evaluation reports as matched the first rule, from the top, that is active,
  -- in its window, and has a group all of whose conditions hold; and none where there is no such rule.
  pub evaluate-find : (evaluate host input).matched_rule_id ≡ id_of (find is_applicable input.rules)
  unfolding evaluate
  evaluate-find =
      result_of-matched (scanned host input).0 (scanned host input).1
      ∙ ap id_of (scan_rules-find host input.now input.order _ input.rules)
