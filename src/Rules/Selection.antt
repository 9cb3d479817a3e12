-- ===== src/Rules/Selection.antt =====
-- Which services `evaluate` may select: what a run's loops may pick, and what the default chain may.
pub mod Action
use mathlib.Core.Bool.{true≢false}
use mathlib.Core.Option.{some-injective}
use jsyxi_shipping.Prelude.{
  Option-cases, ◌≢◌, ◌≡◌, refl, sym, subst, ◌∙◌, inl, inr, Bool, true, false, Option, none, some,
  List, [], ◌∷◌, ◌++◌, Text, if◌then◌else◌,
}
use jsyxi_shipping.Rules.Model.{
  RuleDef, CandidateFacts, EvaluateInput, RuleTrace, FallbackKind, Host,
}
use jsyxi_shipping.Rules.Condition.{has_text}
use jsyxi_shipping.Rules.Filters.{CandidateFilters, is_some}
use jsyxi_shipping.Rules.Candidates.{
  Store, RunCandidate, build_run, entry_reasons, excluded_reason, facts_for, filter_reasons,
  not_bookable_reason,
}
use jsyxi_shipping.Rules.Candidates.Run.{Entered, build_run-Entered, struck, struck-build_run}
use jsyxi_shipping.Rules.Choice.{quote_serviceable, run_priority_chain, serviceable}
use jsyxi_shipping.Rules.Evaluate.{selected_id, not_selected, default_chain_over, done}
use jsyxi_shipping.Rules.Evaluate.Loops.{run_priority_chain-picked, false_before}

-- A service that the shop has, that is bookable, and whose lane no quote refuses.
abbrev pub IsEligible : List CandidateFacts → Text → Type 0
IsEligible candidates id =
    (facts : CandidateFacts) × (facts_for candidates id ≡ some facts)
    × (facts.bookable ≡ true)
    × (quote_serviceable facts.quote ≡ true)

append_nil {ℓ} : {A : Type ℓ} (xs ys : List A) → xs ++ ys ≡ [] → (xs ≡ []) × (ys ≡ [])
append_nil [] ys e = (refl, e)
append_nil (x ∷ xs) ys e = cc

unless_nil {ℓ} : {A : Type ℓ} (b : Bool) (x : A) → (if b then [] else x ∷ []) ≡ [] → b ≡ true
unless_nil true x e = refl
unless_nil false x e = cc

when_nil {ℓ} : {A : Type ℓ} (b : Bool) (x : A) → (if b then x ∷ [] else []) ≡ [] → b ≡ false
when_nil true x e = cc
when_nil false x e = refl

module _ (host : Host) (candidates : List CandidateFacts) (excluded : List Text)
    (filters : Option CandidateFilters) where
  -- No reason is pushed for the service when the run is built.
  abbrev pub IsClear : Text → Type 0
  IsClear id = entry_reasons host candidates excluded filters id (facts_for candidates id) ≡ []

  pub clear_parts :
      (id : Text) (facts : Option CandidateFacts)
      → entry_reasons host candidates excluded filters id facts ≡ []
      → (f : CandidateFacts) × (facts ≡ some f)
        × (has_text id excluded ≡ false)
        × (f.bookable ≡ true)
        × (filter_reasons host candidates excluded filters filters f ≡ [])
  unfolding entry_reasons
  clear_parts id none clear = cc
  clear_parts id (some f) clear =
      let (pair, third) = append_nil _ _ clear in
      let (first, second) = append_nil _ _ pair in
      (
        f,
        refl,
        when_nil _ excluded_reason first,
        unless_nil _ (not_bookable_reason f) second,
        third,
      )

  -- What a loop may pick of a run is eligible, listed and clear.
  pub picked_IsEligible :
      (ids : List Text) (after : Store) (c : RunCandidate)
      → Entered host candidates excluded filters ids after c
      → serviceable c ≡ true
      → struck c.service_id after ≡ false
      → IsEligible candidates c.service_id
        × (has_text c.service_id ids ≡ true)
        × IsClear c.service_id
  unfolding serviceable
  picked_IsEligible ids after c (same, listed, inr gone, there) good clean =
      absurd (true≢false (sym gone ∙ clean))
  picked_IsEligible ids after c (same, listed, inl clear, there) good clean =
      let (f, known, kept, can_book, passes) = clear_parts c.service_id _ clear in
      ((f, known, can_book, (rw (same, known) at good)), listed, clear)

no_service_selected : (b : Bool) {id : Text} → selected_id (not_selected b) ≡ some id → ⊥
no_service_selected true e = cc
no_service_selected false e = cc

module _ (host : Host) (input : EvaluateInput) where
  abbrev default_run : List Text → Store → List RunCandidate × Store
  default_run ids store = build_run host input.candidates [] none 0 ids store

  -- What the default chain picks is eligible, of the chain, and was not struck out before.
  default_chain_picked :
      (ids : List Text) (store : Store) (c : RunCandidate)
      → (run_priority_chain (default_run ids store).0 (default_run ids store).1).0 ≡ some c
      → IsEligible input.candidates c.service_id
        × (struck c.service_id store ≡ false)
        × (has_text c.service_id ids ≡ true)
  default_chain_picked ids store c picked =
      let (entered, good, clean) =
        run_priority_chain-picked
          (Entered host input.candidates [] none ids (default_run ids store).1) _ _ c
          (build_run-Entered host input.candidates [] none 0 ids store) picked in
      let (eligible, listed, _) =
        picked_IsEligible host input.candidates [] none ids _ c entered good clean in
      (
        eligible,
        false_before _ _ (struck-build_run host input.candidates [] none 0 ids c.service_id store)
            clean,
        listed,
      )

  module _ (traces : List RuleTrace) (hit : Option RuleDef) where
    pub default_chain_over-IsEligible :
        (note : Text) (kind : FallbackKind) (store : Store) (ids : List Text) (id : Text)
        → (default_chain_over host input traces hit note kind store ids).selected_service_id
          ≡ some id
        → IsEligible input.candidates id × (struck id store ≡ false) × (has_text id ids ≡ true)
    unfolding default_chain_over done
    default_chain_over-IsEligible note kind store [] id e = absurd (no_service_selected _ e)
    default_chain_over-IsEligible note kind store (first ∷ others) id e =
        let ids = first ∷ others in
        elim (Option-cases
          (run_priority_chain (default_run ids store).0 (default_run ids store).1).0) [
            | inl nothing ↦ absurd (no_service_selected (is_some hit) (rw nothing at e))
            | inr (c, picked) ↦
                let same : some c.service_id ≡ some id = rw picked at e in
                subst
                  (λ i.
                    IsEligible input.candidates i
                    × (struck i store ≡ false)
                    × (has_text i ids ≡ true))
                  (some-injective _ _ same) (default_chain_picked ids store c picked)
          ]

    pub default_chain_falls :
        (note : Text) (kind : FallbackKind) (store : Store) (ids : List Text)
        → (default_chain_over host input traces hit note kind store ids).fallback_chain ≢ none
    unfolding default_chain_over done
    default_chain_falls note kind store [] e = cc
    default_chain_falls note kind store (first ∷ others) e = cc
