-- ===== src/Rules/Results.antt =====
-- The candidate results that `evaluate` returns: the flags of each agree with its reasons and with the
-- outcome.
pub mod Once
use jsyxi_shipping.Prelude.{
  ◌≡◌, refl, sym, subst, ◌∙◌, inl, inr, Bool, true, false, not, Option, none, some, List, [], ◌∷◌,
  arith, Text, All, Bool-cases, is_empty, text_eq,
}
use jsyxi_shipping.Prelude.Int.{ℤ}
use jsyxi_shipping.Rules.Model.{
  manual_only, priority_chain, cheapest, fastest, RuleActionType, RuleDef, CandidateFacts,
  CandidateResult, EliminationReason, EvaluateInput, EvaluationResult, FallbackKind, RuleTrace,
  Host,
}
use jsyxi_shipping.Rules.Filters.{CandidateFilters, is_some}
use jsyxi_shipping.Rules.Candidates.{
  Store, RunCandidate, build_run, eliminate, eliminated_in, entry_reasons, facts_for, has_id,
  mark_selected, new_result, push_reasons, update_result,
}
use jsyxi_shipping.Rules.Candidates.Store.{All-update_result}
use jsyxi_shipping.Rules.Candidates.Run.{All-build_run, is_empty-append}
use jsyxi_shipping.Rules.Choice.{not_serviceable_reason, run_priority_chain, screen, serviceable}
use jsyxi_shipping.Rules.Evaluate.{
  chain_outcome, action_filters, action_run, default_chain_over, done, evaluate, no_rule,
  not_selected, or_no_services, pick_first, result_of, run_action, run_action_as, run_chain,
  run_default_chain, scanned, selected_id, survivors, take_first,
}
use jsyxi_shipping.Rules.Evaluate.Loops.{
  chain_gone, chain_refused, chain_taken, id_of, screen-All, selected-picked,
}

abbrev pub is_choice : Option Text → Text → Bool
is_choice none id = false
is_choice (some chosen) id = text_eq id chosen

-- Eliminated just where there is a reason, and selected just where it is the service chosen.
abbrev pub IsMarked : Option Text → CandidateResult → Type 0
IsMarked chosen r =
    (r.eliminated ≡ not (is_empty r.reasons)) × (r.selected ≡ is_choice chosen r.service_id)

eliminate-IsMarked :
    (chosen : Option Text) (reason : EliminationReason) (r : CandidateResult)
    → IsMarked chosen r
    → IsMarked chosen (eliminate reason r)
eliminate-IsMarked chosen reason r (flag, mark) =
    (rw (is_empty-append r.reasons (reason ∷ [])) (ground arith), mark)

mark_selected-IsMarked :
    (id : Text) (store : Store)
    → All (IsMarked none) store
    → All (IsMarked (some id)) (update_result mark_selected id store)
unfolding update_result
mark_selected-IsMarked id [] h = tt
mark_selected-IsMarked id (r ∷ store) ((flag, mark), h) = elim (Bool-cases (has_id id r)) [
  | inl own ↦ rw own ((flag, sym own), mark_selected-IsMarked id store h)
  | inr other ↦ rw other ((flag, mark ∙ sym other), mark_selected-IsMarked id store h)
]

module _ (host : Host) (candidates : List CandidateFacts) (excluded : List Text)
    (filters : Option CandidateFilters) where
  new-IsMarked :
      (id : Text)
      → IsMarked none (
          push_reasons
            (entry_reasons host candidates excluded filters id (facts_for candidates id))
            (new_result (facts_for candidates id) id))
  unfolding new_result
  new-IsMarked id = (refl, refl)

  pub build_run-IsMarked :
      (ids : List Text) (store : Store)
      → All (IsMarked none) store
      → All (IsMarked none) (build_run host candidates excluded filters 0 ids store).1
  build_run-IsMarked ids store =
      All-build_run host candidates excluded filters (IsMarked none)
        (λ r (flag, mark). (refl, mark)) new-IsMarked 0 ids store

-- What the chain's loop leaves is marked for the candidate that it picked.
pub run_priority_chain-IsMarked :
    (run : List RunCandidate) (store : Store)
    → All (IsMarked none) store
    → All (IsMarked (id_of (run_priority_chain run store).0)) (run_priority_chain run store).1
run_priority_chain-IsMarked [] store h = unfold run_priority_chain in h
run_priority_chain-IsMarked (c ∷ run) store h = elim (Bool-cases (eliminated_in store c)) [
  | inl gone ↦ rw (chain_gone c run store gone) (run_priority_chain-IsMarked run store h)
  | inr live ↦ elim (Bool-cases (serviceable c)) [
    | inl good ↦
        rw (chain_taken c run store live good) (mark_selected-IsMarked c.service_id store h)
    | inr fails ↦
        let reason = not_serviceable_reason c in
        rw (chain_refused c run store live fails) (
          run_priority_chain-IsMarked run (update_result (eliminate reason) c.service_id store) (
            All-update_result (IsMarked none) (eliminate reason) c.service_id store
              (λ r own m. eliminate-IsMarked none reason r m) h))
  ]
]

none_selected : (b : Bool) → selected_id (not_selected b) ≡ none
none_selected true = refl
none_selected false = refl

module _ (host : Host) (input : EvaluateInput) where
  abbrev pub HasMarks : EvaluationResult → Type 0
  HasMarks result = All (IsMarked result.selected_service_id) result.candidate_results

  module _ (traces : List RuleTrace) (hit : Option RuleDef) where
    chain_choice :
        (o : Option RunCandidate) → id_of o ≡ selected_id (chain_outcome host input traces hit o)
    chain_choice none = sym (none_selected (is_some hit))
    chain_choice (some c) = refl

    default_chain_over-HasMarks :
        (note : Text) (kind : FallbackKind) (store : Store) (ids : List Text)
        → All (IsMarked none) store
        → HasMarks (default_chain_over host input traces hit note kind store ids)
    unfolding default_chain_over done
    default_chain_over-HasMarks note kind store [] h = rw (none_selected (is_some hit)) h
    default_chain_over-HasMarks note kind store (first ∷ others) h =
        let (run, built) = build_run host input.candidates [] none 0 (first ∷ others) store in
        let (picked, after) = run_priority_chain run built in
        subst (λ chosen. All (IsMarked chosen) after) (chain_choice picked)
          (run_priority_chain-IsMarked run built
            (build_run-IsMarked host input.candidates [] none (first ∷ others) store h))

  module _ (traces : List RuleTrace) (rule : RuleDef) where
    start-IsMarked : All (IsMarked none) (action_run host input rule).1
    start-IsMarked =
        build_run-IsMarked host input.candidates rule.excluded_service_ids
          (action_filters host input rule) rule.action_service_ids [] tt

    take_first-HasMarks :
        (note : Text) (store : Store) (sorted : List RunCandidate)
        → All (IsMarked none) store
        → HasMarks (take_first host input traces rule note store sorted)
    unfolding take_first run_default_chain done
    take_first-HasMarks note store [] h =
        default_chain_over-HasMarks traces (some rule) note _ store _ h
    take_first-HasMarks note store (c ∷ sorted) h = mark_selected-IsMarked c.service_id store h

    pick_first-HasMarks :
        (compare : Store → RunCandidate → RunCandidate → ℤ) (note : Text)
        (against : RunCandidate → Option EliminationReason)
        → HasMarks (
            pick_first host input traces rule compare note
              (screen against (survivors host input rule) (action_run host input rule).1))
    unfolding pick_first
    pick_first-HasMarks compare note against = take_first-HasMarks note _ _ (
        screen-All (IsMarked none) against (survivors host input rule) _ (eliminate-IsMarked none)
          start-IsMarked)

    run_action_as-HasMarks :
        (action : RuleActionType) → HasMarks (run_action_as host input traces rule action)
    unfolding run_action_as run_chain done
    run_action_as-HasMarks manual_only = tt
    run_action_as-HasMarks priority_chain =
        let (picked, after) =
          run_priority_chain (survivors host input rule) (action_run host input rule).1 in
        subst (λ chosen. All (IsMarked chosen) after) (sym (selected-picked picked))
          (run_priority_chain-IsMarked (survivors host input rule) _ start-IsMarked)
    run_action_as-HasMarks cheapest = pick_first-HasMarks _ _ _
    run_action_as-HasMarks fastest = pick_first-HasMarks _ _ _

  result_of-HasMarks :
      (traces : List RuleTrace) (hit : Option RuleDef) → HasMarks (result_of host input traces hit)
  unfolding no_rule run_default_chain run_action done
  result_of-HasMarks traces none =
      elim (Bool-cases (is_empty (or_no_services input.default_chain_service_ids))) [
        | inl unset ↦ rw unset tt
        | inr given ↦ rw given (default_chain_over-HasMarks traces none _ _ [] _ tt)
      ]
  result_of-HasMarks traces (some rule) = run_action_as-HasMarks traces rule rule.action_type

  pub evaluate-HasMarks : HasMarks (evaluate host input)
  unfolding evaluate
  evaluate-HasMarks = result_of-HasMarks (scanned host input).0 (scanned host input).1
