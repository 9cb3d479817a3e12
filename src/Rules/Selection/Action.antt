-- ===== src/Rules/Selection/Action.antt =====
-- What the action of the matched rule selects, and what its fallback may.
use mathlib.Core.Option.{some-injective}
use jsyxi_shipping.Prelude.{
  Option-cases, ◌⊎◌, ◌≢◌, ◌≡◌, refl, subst, inl, inr, Bool, true, false, not, Option, none, some,
  List, [], ◌∷◌, Text, arith, All, All-weaken, All-filter, All-of_filter, is_empty, Bool-cases,
}
use jsyxi_shipping.Prelude.Compare.{sort_compare, sort_compare-nil, All-sort_compare}
use jsyxi_shipping.Prelude.Int.{ℤ}
use jsyxi_shipping.Rules.Model.{
  priority_chain, cheapest, fastest, manual_only, RuleDef, EliminationReason, EvaluateInput,
  RuleTrace, s22_default_chain, RuleActionType, EvaluationResult, Host,
}
use jsyxi_shipping.Rules.Condition.{has_text}
use jsyxi_shipping.Rules.Candidates.{Store, RunCandidate, eliminated_in}
use jsyxi_shipping.Rules.Candidates.Run.{
  Entered, build_run-Entered, build_run-Exact, build_run-covers, Exact-struck, struck,
}
use jsyxi_shipping.Rules.Choice.{
  against_price, compare_cost, run_priority_chain, screen, serviceable,
}
use jsyxi_shipping.Rules.Evaluate.{
  against_edd, compare_edd, no_rule_note, price_note, edd_note, run_action_as, result_of, scanned,
  no_rule, or_no_services, action_filters, action_run, done, evaluate, no_rule, pick_first,
  run_action, run_chain, run_default_chain, survivors, take_first,
}
use jsyxi_shipping.Rules.Evaluate.Loops.{
  run_priority_chain-picked, screen-kept, screen-struck, screen_none-struck, false_before,
  struck_eliminated,
}
use jsyxi_shipping.Rules.Selection.{
  IsEligible, IsClear, picked_IsEligible, default_chain_over-IsEligible, default_chain_falls,
}

module _ (host : Host) (input : EvaluateInput) where
  module _ (rule : RuleDef) where
    -- What the action itself, before any fallback, may select.
    abbrev pub IsOfAction : Text → Type 0
    IsOfAction id =
        IsEligible input.candidates id
        × (has_text id rule.action_service_ids ≡ true)
        × IsClear host input.candidates rule.excluded_service_ids (action_filters host input rule)
            id

    abbrev pub start_store : Store
    start_store = (action_run host input rule).1

    abbrev EnteredAction : RunCandidate → Type 0
    EnteredAction =
        Entered host input.candidates rule.excluded_service_ids (action_filters host input rule)
          rule.action_service_ids start_store

    action-picked :
        (c : RunCandidate)
        → EnteredAction c
        → serviceable c ≡ true
        → struck c.service_id start_store ≡ false
        → IsOfAction c.service_id
    action-picked c entered good clean =
        picked_IsEligible host input.candidates rule.excluded_service_ids
          (action_filters host input rule) rule.action_service_ids start_store c entered good clean

    pub survivors-Entered :
        All
          (λ c. EnteredAction c × (not (eliminated_in start_store c) ≡ true))
          (survivors host input rule)
    survivors-Entered = All-filter EnteredAction _ (action_run host input rule).0 (
        build_run-Entered host input.candidates rule.excluded_service_ids
          (action_filters host input rule) 0 rule.action_service_ids [])

    kept-IsOfAction :
        (against : RunCandidate → Option EliminationReason)
        → ((c : RunCandidate) → against c ≡ none → serviceable c ≡ true)
        → All
            (λ c. IsOfAction c.service_id)
            (screen against (survivors host input rule) start_store).0
    kept-IsOfAction against good =
        All-weaken _ _ _
          (λ c ((entered, live), clear).
            action-picked c entered (good c clear)
              (false_before _ _ (struck_eliminated start_store c) (not_false _ live)))
          (screen-kept _ against _ start_store survivors-Entered)
      where
        not_false : (b : Bool) → not b ≡ true → b ≡ false
        not_false b h = ground arith

    -- Where a screen keeps nothing, every service of the action is struck out.
    none_kept-struck :
        (against : RunCandidate → Option EliminationReason) (id : Text)
        → (screen against (survivors host input rule) start_store).0 ≡ []
        → has_text id rule.action_service_ids ≡ true
        → struck id (screen against (survivors host input rule) start_store).1 ≡ true
    none_kept-struck against id nothing listed =
        let after = (screen against (survivors host input rule) start_store).1 in
        build_run-covers host input.candidates rule.excluded_service_ids
          (action_filters host input rule) (λ i. struck i after ≡ true) 0 rule.action_service_ids []
          id
          (All-of_filter _ (λ c. not (eliminated_in start_store c)) (action_run host input rule).0
            (screen_none-struck against _ start_store
              (All-weaken _ _ _ (λ c ((_, _, _, there), _). there) survivors-Entered) nothing)
            (λ c out. screen-struck against _ c.service_id start_store (out_struck c out)))
          listed
      where
        not_true : (b : Bool) → not b ≡ false → b ≡ true
        not_true b h = ground arith

        out_struck :
            (c : RunCandidate)
            → not (eliminated_in start_store c) ≡ false
            → struck c.service_id start_store ≡ true
        out_struck c out =
            Exact-struck host input.candidates rule.excluded_service_ids
              (action_filters host input rule) start_store c
              (build_run-Exact host input.candidates rule.excluded_service_ids
                (action_filters host input rule) 0 rule.action_service_ids)
              (not_true _ out)

  module _ (traces : List RuleTrace) (rule : RuleDef) where
    run_chain-IsOfAction :
        (id : Text)
        → (run_chain host input traces rule).selected_service_id ≡ some id
        → IsOfAction rule id
    unfolding run_chain done
    run_chain-IsOfAction id e =
        let run = survivors host input rule in
        elim (Option-cases (run_priority_chain run (start_store rule)).0) [
          | inl nothing ↦ let e' : none ≡ some id = rw nothing at e in cc
          | inr (c, picked) ↦
              let same : some c.service_id ≡ some id = rw picked at e in
              let ((entered, live), good, clean) =
                run_priority_chain-picked _ run (start_store rule) c (survivors-Entered rule)
                  picked in
              subst (IsOfAction rule) (some-injective _ _ same)
                (action-picked rule c entered good clean)
        ]

    -- The first of what a screen keeps, or the fallback.
    take_first-cases :
        (note : Text) (store : Store) (sorted : List RunCandidate) (id : Text)
        → All (λ c. IsOfAction rule c.service_id) sorted
        → (take_first host input traces rule note store sorted).selected_service_id ≡ some id
        → (IsOfAction rule id
            × ((take_first host input traces rule note store sorted).fallback_chain ≡ none))
          ⊎ ((sorted ≡ [])
              × IsEligible input.candidates id
              × (struck id store ≡ false)
              × (has_text id (or_no_services input.default_chain_service_ids) ≡ true)
              × ((take_first host input traces rule note store sorted).fallback_chain ≢ none))
    unfolding take_first run_default_chain done
    take_first-cases note store [] id h e =
        let (eligible, clean, listed) =
          default_chain_over-IsEligible host input traces (some rule) note _ store _ id e in
        inr (
          refl,
          eligible,
          clean,
          listed,
          default_chain_falls host input traces (some rule) note _ store _,
        )
    take_first-cases note store (c ∷ sorted) id (p, h) e =
        inl (subst (IsOfAction rule) (some-injective _ _ e) p, refl)

    abbrev pub IsSelection : EvaluationResult → Text → Type 0
    IsSelection result id =
        (IsOfAction rule id × (result.fallback_chain ≡ none))
        ⊎ (IsEligible input.candidates id
            × (result.fallback_chain ≢ none)
            × (has_text id (or_no_services input.default_chain_service_ids) ≡ true)
            × (has_text id rule.action_service_ids ≡ false))

    pick_first-IsSelection :
        (compare : Store → RunCandidate → RunCandidate → ℤ) (note : Text)
        (against : RunCandidate → Option EliminationReason)
        → ((c : RunCandidate) → against c ≡ none → serviceable c ≡ true)
        → (id : Text)
        → (let result =
              pick_first host input traces rule compare note
                (screen against (survivors host input rule) (start_store rule)) in
            result.selected_service_id ≡ some id → IsSelection result id)
    unfolding pick_first
    pick_first-IsSelection compare note against good id e =
        let (kept, after) = screen against (survivors host input rule) (start_store rule) in
        elim (take_first-cases note after (sort_compare (compare after) kept) id
          (All-sort_compare (compare after) _ kept (kept-IsOfAction rule against good)) e) [
            | inl own ↦ inl own
            | inr (empty, eligible, clean, listed, fell) ↦ inr (
              eligible,
              fell,
              listed,
              false_before _ _
                  (none_kept-struck rule against id (sort_compare-nil (compare after) kept empty))
                  clean,
            )
          ]

    against_price-serviceable : (c : RunCandidate) → against_price c ≡ none → serviceable c ≡ true
    unfolding against_price
    against_price-serviceable c h = ground arith

    against_edd-serviceable :
        (c : RunCandidate) → against_edd host input c ≡ none → serviceable c ≡ true
    unfolding against_edd
    against_edd-serviceable c h = ground arith

    run_action_as-IsSelection :
        (action : RuleActionType) (id : Text)
        → (run_action_as host input traces rule action).selected_service_id ≡ some id
        → IsSelection (run_action_as host input traces rule action) id
    unfolding run_action_as run_chain done
    run_action_as-IsSelection manual_only id e = cc
    run_action_as-IsSelection priority_chain id e = inl (run_chain-IsOfAction id e, refl)
    run_action_as-IsSelection cheapest id e =
        pick_first-IsSelection compare_cost price_note against_price against_price-serviceable id e
    run_action_as-IsSelection fastest id e =
        pick_first-IsSelection (compare_edd host input) edd_note (against_edd host input)
          against_edd-serviceable id e

    -- As the code stands: a selection without a fallback is of the rule's list with no reason pushed against
    -- it, and the default chain gives no service that is in the rule's list.
    pub run_action-IsSelection :
        (id : Text)
        → (run_action host input traces rule).selected_service_id ≡ some id
        → IsSelection (run_action host input traces rule) id
    unfolding run_action
    run_action-IsSelection id e = run_action_as-IsSelection rule.action_type id e

    IsSelection-IsEligible :
        (result : EvaluationResult) (id : Text)
        → IsSelection result id
        → IsEligible input.candidates id
    IsSelection-IsEligible result id (inl ((eligible, _, _), _)) = eligible
    IsSelection-IsEligible result id (inr (eligible, _, _, _)) = eligible

  no_rule-IsEligible :
      (traces : List RuleTrace) (id : Text)
      → (no_rule host input traces).selected_service_id ≡ some id
      → IsEligible input.candidates id
  unfolding no_rule run_default_chain done
  no_rule-IsEligible traces id e =
      let ids = or_no_services input.default_chain_service_ids in
      elim (Bool-cases (is_empty ids)) [
        | inl unset ↦ let e' : none ≡ some id = rw unset at e in cc
        | inr given ↦
            (default_chain_over-IsEligible host input traces none no_rule_note s22_default_chain []
              ids id (rw given at e)).0
      ]

  result-IsEligible :
      (traces : List RuleTrace) (hit : Option RuleDef) (id : Text)
      → (result_of host input traces hit).selected_service_id ≡ some id
      → IsEligible input.candidates id
  result-IsEligible traces none id e = no_rule-IsEligible traces id e
  result-IsEligible traces (some rule) id e =
      IsSelection-IsEligible traces rule (run_action host input traces rule) id
        (run_action-IsSelection traces rule id e)

  -- A service that the evaluation selects is one of the candidates (of two under one id, the later), it
  -- is bookable, and no quote says that the lane is not serviceable: on every path, the fallbacks
  -- included.
  pub evaluate-IsEligible :
      (id : Text)
      → (evaluate host input).selected_service_id ≡ some id
      → IsEligible input.candidates id
  unfolding evaluate
  evaluate-IsEligible id e = result-IsEligible (scanned host input).0 (scanned host input).1 id e
