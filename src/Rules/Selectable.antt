-- ===== src/Rules/Selectable.antt =====
-- Which services of its list a rule may select, by the input alone: what PRIORITY_CHAIN selects of them, and
-- what any action does.
use mathlib.Core.Path.{fun_ext}
use jsyxi_shipping.Prelude.{
  ◌≡◌, ◌≢◌, ◌⊎◌, refl, ap, ◌∙◌, inl, inr, Bool, true, false, not, ◌&&◌, Option, none, some, List,
  [], ◌∷◌, ◌++◌, arith, Text, find, is_empty, if◌then◌else◌,
}
use jsyxi_shipping.Rules.Model.{
  RuleDef, CandidateFacts, EliminationReason, EvaluateInput, EvaluationResult, RuleTrace, Host,
}
use jsyxi_shipping.Rules.Condition.{has_text}
use jsyxi_shipping.Rules.Candidates.{
  entry_reasons, excluded_reason, facts_for, filter_reasons, not_bookable_reason,
}
use jsyxi_shipping.Rules.Candidates.Run.{is_empty-append}
use jsyxi_shipping.Rules.Choice.{facts_serviceable, quote_serviceable}
use jsyxi_shipping.Rules.Evaluate.{action_filters, or_no_services, run_action, run_chain}
use jsyxi_shipping.Rules.PriorityChain.{is_open_for, run_chain-find_open}
use jsyxi_shipping.Rules.Selection.{IsEligible, clear_parts}
use jsyxi_shipping.Rules.Selection.Action.{IsSelection, run_action-IsSelection}

reason_when : (b : Bool) (x : EliminationReason) → is_empty (if b then x ∷ [] else []) ≡ not b
reason_when true x = refl
reason_when false x = refl

reason_unless : (b : Bool) (x : EliminationReason) → is_empty (if b then [] else x ∷ []) ≡ b
reason_unless true x = refl
reason_unless false x = refl

module _ (host : Host) (input : EvaluateInput) (rule : RuleDef) where
  -- The conditions of the rule on a candidate say nothing against it.
  abbrev pub passes_filters : CandidateFacts → Bool
  passes_filters f = is_empty (
      filter_reasons host input.candidates rule.excluded_service_ids
        (action_filters host input rule) (action_filters host input rule) f)

  abbrev pub facts_selectable : Text → Option CandidateFacts → Bool
  facts_selectable id none = false
  facts_selectable id (some f) =
      not (has_text id rule.excluded_service_ids)
      && f.bookable
      && passes_filters f
      && quote_serviceable f.quote

  -- Known, not excluded by the rule, bookable, passed by its conditions on a candidate, and refused by no
  -- quote.
  abbrev pub is_selectable : Text → Bool
  is_selectable id = facts_selectable id (facts_for input.candidates id)

  selectable_facts :
      (id : Text) (facts : Option CandidateFacts)
      → (is_empty (
            entry_reasons host input.candidates rule.excluded_service_ids
              (action_filters host input rule)
              id
              facts)
          && facts_serviceable facts)
        ≡ facts_selectable id facts
  unfolding entry_reasons
  selectable_facts id none = refl
  selectable_facts id (some f) =
      rw
        (
          is_empty-append
              ((if has_text id rule.excluded_service_ids then excluded_reason ∷ [] else [])
                ++ (if f.bookable then [] else not_bookable_reason f ∷ []))
              (filter_reasons host input.candidates rule.excluded_service_ids
                (action_filters host input rule) (action_filters host input rule) f),
          is_empty-append
              (if has_text id rule.excluded_service_ids then excluded_reason ∷ [] else [])
              (if f.bookable then [] else not_bookable_reason f ∷ []),
          reason_when (has_text id rule.excluded_service_ids) excluded_reason,
          reason_unless f.bookable (not_bookable_reason f),
        )
        (ground arith)

  pub open-selectable : (id : Text) → is_open_for host input rule id ≡ is_selectable id
  open-selectable id = selectable_facts id (facts_for input.candidates id)

  -- PRIORITY_CHAIN selects the first service of the rule's list that is known, not excluded by the rule,
  -- bookable, passed by the rule's conditions on a candidate (zone, estimated freight, volumetric weight),
  -- and refused by no quote; none if there is no such service. A price counts only through such a condition.
  pub run_chain-find :
      (traces : List RuleTrace)
      → (run_chain host input traces rule).selected_service_id
        ≡ find is_selectable rule.action_service_ids
  run_chain-find traces =
      run_chain-find_open host input rule traces
      ∙ ap (λ (p : Text → Bool). find p rule.action_service_ids) (fun_ext open-selectable)

  -- A service of the rule's list, or one of the default chain.
  abbrev pub IsSelected : EvaluationResult → Text → Type 0
  IsSelected result id =
      IsEligible input.candidates id
      × (((has_text id rule.action_service_ids ≡ true)
            × (has_text id rule.excluded_service_ids ≡ false)
            × ((f : CandidateFacts) × (facts_for input.candidates id ≡ some f)
                × (passes_filters f ≡ true))
            × (result.fallback_chain ≡ none))
          ⊎ ((has_text id (or_no_services input.default_chain_service_ids) ≡ true)
              × (result.fallback_chain ≢ none)))

  selection-IsSelected :
      (traces : List RuleTrace) (result : EvaluationResult) (id : Text)
      → IsSelection host input traces rule result id
      → IsSelected result id
  selection-IsSelected traces result id (inl ((eligible, listed, clear), chosen)) =
      let (f, known, kept, _, passes) =
        clear_parts host input.candidates rule.excluded_service_ids (action_filters host input rule)
          id _ clear in
      (eligible, inl (listed, kept, (f, known, rw passes refl), chosen))
  selection-IsSelected traces result id (inr (eligible, fell, listed, _)) =
      (eligible, inr (listed, fell))

  -- A service that the action of a rule selects is known, bookable and refused by no quote. Without a
  -- fallback it is in the rule's list, not excluded by the rule, and its conditions on a candidate say
  -- nothing against it; with the fallback it is in the shop's default chain.
  pub run_action-IsSelected :
      (traces : List RuleTrace) (id : Text)
      → (run_action host input traces rule).selected_service_id ≡ some id
      → IsSelected (run_action host input traces rule) id
  run_action-IsSelected traces id e =
      selection-IsSelected traces (run_action host input traces rule) id
        (run_action-IsSelection host input traces rule id e)
