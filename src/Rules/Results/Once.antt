-- ===== src/Rules/Results/Once.antt =====
-- The candidate results that `evaluate` returns are one for each service, as in the source's Map.
use jsyxi_shipping.Prelude.{
  ◌≡◌, refl, sym, subst, ap, inl, inr, Bool, false, ◌||◌, Option, none, some, List, [], ◌∷◌, ◌++◌,
  arith, Text, Bool-cases, Option-cases, is_empty, map, text_eq, ℕ, suc,
}
use jsyxi_shipping.Prelude.Int.{ℤ}
use jsyxi_shipping.Rules.Model.{
  manual_only, priority_chain, cheapest, fastest, RuleActionType, RuleDef, CandidateFacts,
  CandidateResult, EliminationReason, EvaluateInput, FallbackKind, RuleTrace, Host,
}
use jsyxi_shipping.Rules.Condition.{has_text}
use jsyxi_shipping.Rules.Filters.{CandidateFilters}
use jsyxi_shipping.Rules.Candidates.{
  Store, RunCandidate, build_run, eliminate, eliminated_in, enter, entry_reasons, facts_for,
  get_result, has_id, mark_selected, new_result, push_reasons, result_for, update_result,
}
use jsyxi_shipping.Rules.Candidates.Store.{KeepsId, result_for-created, result_for-kept}
use jsyxi_shipping.Rules.Choice.{not_serviceable_reason, run_priority_chain, screen, serviceable}
use jsyxi_shipping.Rules.Evaluate.{
  action_filters, action_run, default_chain_over, done, evaluate, no_rule, or_no_services,
  pick_first, result_of, run_action, run_action_as, run_chain, run_default_chain, scanned,
  survivors, take_first,
}
use jsyxi_shipping.Rules.Evaluate.Loops.{chain_gone, chain_refused, chain_taken}
use jsyxi_shipping.Rules.Results.{HasMarks, evaluate-HasMarks}

abbrev pub NoRepeat : List Text → Type 0
NoRepeat [] = Unit
NoRepeat (id ∷ ids) = (has_text id ids ≡ false) × NoRepeat ids

abbrev pub services_of : Store → List Text
services_of store = map (λ (r : CandidateResult). r.service_id) store

update_result-services :
    (write : CandidateResult → CandidateResult) (id : Text) (store : Store)
    → KeepsId write
    → services_of (update_result write id store) ≡ services_of store
unfolding update_result
update_result-services write id [] same = refl
update_result-services write id (r ∷ store) same = elim (Bool-cases (has_id id r)) [
  | inl own ↦ rw (own, same r, update_result-services write id store same) refl
  | inr other ↦ rw (other, update_result-services write id store same) refl
]

text_eq_sym : (s t : Text) → text_eq s t ≡ text_eq t s
unfolding text_eq
text_eq_sym [] [] = refl
text_eq_sym [] (_ ∷ _) = refl
text_eq_sym (_ ∷ _) [] = refl
text_eq_sym (c ∷ s) (d ∷ t) = ground (arith, text_eq_sym s t)

absent_service :
    (id : Text) (store : Store)
    → get_result id store ≡ none
    → has_text id (services_of store) ≡ false
absent_service id [] e = refl
absent_service id (r ∷ store) e = elim (Bool-cases (has_id id r)) [
  | inl own ↦ let e' : some r ≡ none = rw own at e in cc
  | inr other ↦
      let rest = absent_service id store (rw other at e) in
      rw (text_eq_sym id r.service_id, other, rest) refl
]

has_text-last :
    (id new : Text) (ids : List Text)
    → has_text id (ids ++ new ∷ []) ≡ (has_text id ids || text_eq id new)
has_text-last id new [] = ground arith
has_text-last id new (x ∷ ids) = ground (arith, has_text-last id new ids)

NoRepeat-last :
    (ids : List Text) (new : Text)
    → NoRepeat ids
    → has_text new ids ≡ false
    → NoRepeat (ids ++ new ∷ [])
NoRepeat-last [] new h absent = (refl, tt)
NoRepeat-last (x ∷ ids) new (own, h) absent = (
  rw (has_text-last x new ids, own, text_eq_sym x new) (first _ _ absent),
  NoRepeat-last ids new h (second _ _ absent),
)
  where
    first : (a b : Bool) → (a || b) ≡ false → a ≡ false
    first a b h = ground arith

    second : (a b : Bool) → (a || b) ≡ false → b ≡ false
    second a b h = ground arith

services-append :
    (store : Store) (r : CandidateResult)
    → services_of (store ++ r ∷ []) ≡ services_of store ++ r.service_id ∷ []
services-append [] r = refl
services-append (x ∷ store) r = ap (◌∷◌ x.service_id) (services-append store r)

abbrev pub IsOnePerService : Store → Type 0
IsOnePerService store = NoRepeat (services_of store)

update_result-once :
    (write : CandidateResult → CandidateResult) (id : Text) (store : Store)
    → KeepsId write
    → IsOnePerService store
    → IsOnePerService (update_result write id store)
update_result-once write id store same =
    subst NoRepeat (sym (update_result-services write id store same))

result_for-once :
    (candidates : List CandidateFacts) (id : Text) (store : Store)
    → IsOnePerService store
    → IsOnePerService (result_for candidates id store)
unfolding new_result
result_for-once candidates id store h = elim (Option-cases (get_result id store)) [
  | inr (r, there) ↦ rw (result_for-kept candidates id store there) h
  | inl absent ↦
      rw
        (
          result_for-created candidates id store absent,
          services-append store (new_result (facts_for candidates id) id),
        )
        (NoRepeat-last (services_of store) id h (absent_service id store absent))
]

run_priority_chain-once :
    (run : List RunCandidate) (store : Store)
    → IsOnePerService store
    → IsOnePerService (run_priority_chain run store).1
run_priority_chain-once [] store h = unfold run_priority_chain in h
run_priority_chain-once (c ∷ run) store h = elim (Bool-cases (eliminated_in store c)) [
  | inl gone ↦ rw (chain_gone c run store gone) (run_priority_chain-once run store h)
  | inr live ↦ elim (Bool-cases (serviceable c)) [
    | inl good ↦
        rw (chain_taken c run store live good)
          (update_result-once mark_selected c.service_id store (λ r. refl) h)
    | inr fails ↦ rw (chain_refused c run store live fails) (
        run_priority_chain-once run _ (
          update_result-once (eliminate (not_serviceable_reason c)) c.service_id store (λ r. refl)
            h))
  ]
]

screen-once :
    (against : RunCandidate → Option EliminationReason) (run : List RunCandidate) (store : Store)
    → IsOnePerService store
    → IsOnePerService (screen against run store).1
unfolding screen
screen-once against [] store h = h
screen-once against (c ∷ run) store h = elim (Option-cases (against c)) [
  | inl clear ↦ rw (screen, clear) (screen-once against run store h)
  | inr (reason, found) ↦
      rw (screen, found)
        (screen-once against run _
          (update_result-once (eliminate reason) c.service_id store (λ r. refl) h))
]

module _ (host : Host) (candidates : List CandidateFacts) (excluded : List Text)
    (filters : Option CandidateFilters) where
  build_run-once :
      (position : ℕ) (ids : List Text) (store : Store)
      → IsOnePerService store
      → IsOnePerService (build_run host candidates excluded filters position ids store).1
  unfolding build_run enter
  build_run-once position [] store h = h
  build_run-once position (id ∷ ids) store h =
      build_run-once (suc position) ids (enter host candidates excluded filters id store) (
        update_result-once
          (push_reasons
            (entry_reasons host candidates excluded filters id (facts_for candidates id)))
          id (result_for candidates id store) (λ r. refl) (result_for-once candidates id store h))

module _ (host : Host) (input : EvaluateInput) where
  default_chain_over-once :
      (traces : List RuleTrace) (hit : Option RuleDef) (note : Text) (kind : FallbackKind)
      (store : Store) (ids : List Text)
      → IsOnePerService store
      → IsOnePerService
          (default_chain_over host input traces hit note kind store ids).candidate_results
  unfolding default_chain_over done
  default_chain_over-once traces hit note kind store [] h = h
  default_chain_over-once traces hit note kind store (first ∷ others) h =
      run_priority_chain-once (build_run host input.candidates [] none 0 (first ∷ others) store).0 _
        (build_run-once host input.candidates [] none 0 (first ∷ others) store h)

  module _ (traces : List RuleTrace) (rule : RuleDef) where
    start-once : IsOnePerService (action_run host input rule).1
    start-once =
        build_run-once host input.candidates rule.excluded_service_ids
          (action_filters host input rule) 0 rule.action_service_ids [] tt

    take_first-once :
        (note : Text) (store : Store) (sorted : List RunCandidate)
        → IsOnePerService store
        → IsOnePerService (take_first host input traces rule note store sorted).candidate_results
    unfolding take_first run_default_chain done
    take_first-once note store [] h = default_chain_over-once traces (some rule) note _ store _ h
    take_first-once note store (c ∷ sorted) h =
        update_result-once mark_selected c.service_id store (λ r. refl) h

    pick_first-once :
        (compare : Store → RunCandidate → RunCandidate → ℤ) (note : Text)
        (against : RunCandidate → Option EliminationReason)
        → IsOnePerService
            (pick_first host input traces rule compare note (
              screen against
                (survivors host input rule)
                (action_run host input rule).1)).candidate_results
    unfolding pick_first
    pick_first-once compare note against =
        take_first-once note _ _ (screen-once against (survivors host input rule) _ start-once)

    run_action_as-once :
        (action : RuleActionType)
        → IsOnePerService (run_action_as host input traces rule action).candidate_results
    unfolding run_action_as run_chain done
    run_action_as-once manual_only = tt
    run_action_as-once priority_chain =
        run_priority_chain-once (survivors host input rule) _ start-once
    run_action_as-once cheapest = pick_first-once _ _ _
    run_action_as-once fastest = pick_first-once _ _ _

  result_of-once :
      (traces : List RuleTrace) (hit : Option RuleDef)
      → IsOnePerService (result_of host input traces hit).candidate_results
  unfolding no_rule run_default_chain run_action done
  result_of-once traces none =
      elim (Bool-cases (is_empty (or_no_services input.default_chain_service_ids))) [
        | inl unset ↦ rw unset tt
        | inr given ↦ rw given (default_chain_over-once traces none _ _ [] _ tt)
      ]
  result_of-once traces (some rule) = run_action_as-once traces rule rule.action_type

  -- In what the evaluation returns, no two candidate results are of one service; and a result is flagged
  -- eliminated just where it has a reason, and selected just where it is of the selected service: so one at
  -- most is, and none where no service is selected.
  pub evaluate-MarksOnce :
      HasMarks host input (evaluate host input)
      × IsOnePerService (evaluate host input).candidate_results
  unfolding evaluate
  evaluate-MarksOnce =
      (evaluate-HasMarks host input, result_of-once (scanned host input).0 (scanned host input).1)
