-- ===== src/Rules/Cheapest/Least.antt =====
-- CHEAPEST against all services of the action that are open and priced.
use jsyxi_shipping.Prelude.{
  ◌≡◌, refl, sym, subst, ◌∙◌, ◌⊎◌, inl, inr, true, none, some, List, [], ◌∷◌, Text, All,
}
use jsyxi_shipping.Prelude.Compare.{All-sort_compare, sort_compare, sort_compare-nil}
use jsyxi_shipping.Rules.Model.{cheapest, RuleDef, EvaluateInput, RuleTrace, EvaluationResult, Host}
use jsyxi_shipping.Rules.Condition.{has_text}
use jsyxi_shipping.Rules.Candidates.{Store, RunCandidate, facts_for}
use jsyxi_shipping.Rules.Choice.{compare_cost, facts_priced}
use jsyxi_shipping.Rules.Evaluate.{
  done, pick_first, price_note, run_action, run_action_as, take_first,
}
use jsyxi_shipping.Rules.PriorityChain.{is_open_for}
use jsyxi_shipping.Rules.Selectable.{is_selectable, open-selectable}
use jsyxi_shipping.Rules.Cheapest.{NoBetter, first-NoBetter}
use jsyxi_shipping.Rules.Cheapest.Screened.{
  IsDecimalPriced, IsPriced, price-IsPriced, kept_cover, kept-HasPrice, kept_facts, screened,
}

List-cases {ℓ} :
    {A : Type ℓ} (xs : List A) → (xs ≡ []) ⊎ ((x : A) × (rest : List A) × (xs ≡ x ∷ rest))
List-cases [] = inl refl
List-cases (x ∷ xs) = inr (x, xs, refl)

module _ (host : Host) (input : EvaluateInput) (traces : List RuleTrace) (rule : RuleDef) where
  -- A service with a price is selected, without a fallback, than which the other is no better.
  abbrev pub SelectsNoBetter : EvaluationResult → Text → Type 0
  SelectsNoBetter result other =
      (id : Text) × (result.selected_service_id ≡ some id)
      × (result.fallback_chain ≡ none)
      × IsPriced (facts_for input.candidates id)
      × NoBetter (facts_for input.candidates other) (facts_for input.candidates id)

  take_first-selects :
      (note : Text) (store : Store) (c : RunCandidate) (rest : List RunCandidate)
      → (let result = take_first host input traces rule note store (c ∷ rest) in
          (result.selected_service_id ≡ some c.service_id) × (result.fallback_chain ≡ none))
  unfolding take_first done
  take_first-selects note store c rest = (refl, refl)

  -- An open, priced service of the action keeps the list of candidates from being empty.
  kept_not_empty :
      (other : Text)
      → has_text other rule.action_service_ids ≡ true
      → is_open_for host input rule other ≡ true
      → facts_priced (facts_for input.candidates other) ≡ true
      → (c : RunCandidate) × (rest : List RunCandidate) × (sort_compare
            (compare_cost (screened host input rule).1)
            (screened host input rule).0
          ≡ c ∷ rest)
  kept_not_empty other listed opened priced =
      let (kept, after) = screened host input rule in
      elim (List-cases (sort_compare (compare_cost after) kept)) [
        | inr found ↦ found
        | inl empty ↦ absurd (
            kept_cover host input rule (λ f. ⊥) other
              (subst (All (λ c. ⊥)) (sym (sort_compare-nil (compare_cost after) kept empty)) tt)
              listed opened priced)
      ]

  cheapest-NoBetter :
      (other : Text)
      → All IsDecimalPriced input.candidates
      → has_text other rule.action_service_ids ≡ true
      → is_open_for host input rule other ≡ true
      → facts_priced (facts_for input.candidates other) ≡ true
      → SelectsNoBetter (run_action_as host input traces rule cheapest) other
  unfolding run_action_as pick_first
  cheapest-NoBetter other decimal listed opened priced =
      let (kept, after) = screened host input rule in
      let (c, rest, shape) = kept_not_empty other listed opened priced in
      let (picked, none_fell) = take_first-selects price_note after c rest in
      let sorted_facts : All _ (c ∷ rest) =
        subst (All _) shape
          (All-sort_compare (compare_cost after) _ kept (kept_facts host input rule)) in
      subst
        (λ sorted.
          SelectsNoBetter (take_first host input traces rule price_note after sorted) other)
        (sym shape)
        (
          c.service_id,
          picked,
          none_fell,
          subst IsPriced sorted_facts.0.0 (price-IsPriced c.facts sorted_facts.0.1),
          kept_cover host input rule (λ f. NoBetter f (facts_for input.candidates c.service_id))
              other
              (subst (λ b. All (λ d. NoBetter d.facts b) kept) sorted_facts.0.0
                (first-NoBetter after kept rest c (kept-HasPrice host input rule decimal) shape))
              listed opened priced,
        )

  -- Under a CHEAPEST rule, where the candidates' prices are decimals: if a service of the rule's list may be
  -- selected (it is known, not excluded, bookable, passed by the rule's conditions on a candidate, refused
  -- by no quote) and is priced, then a service is selected without a fallback; it has a cost source and a
  -- quote with an available rate and a total; its price is at most the other's, and at equal prices its
  -- tie-break order is at most the other's.
  pub run_action-SelectsNoBetter :
      (other : Text)
      → rule.action_type ≡ cheapest
      → All IsDecimalPriced input.candidates
      → has_text other rule.action_service_ids ≡ true
      → is_selectable host input rule other ≡ true
      → facts_priced (facts_for input.candidates other) ≡ true
      → SelectsNoBetter (run_action host input traces rule) other
  unfolding run_action
  run_action-SelectsNoBetter other action decimal listed selectable priced =
      subst (λ a. SelectsNoBetter (run_action_as host input traces rule a) other) (sym action)
        (cheapest-NoBetter other decimal listed (open-selectable host input rule other ∙ selectable)
          priced)
