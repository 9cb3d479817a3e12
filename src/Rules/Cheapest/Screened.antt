-- ===== src/Rules/Cheapest/Screened.antt =====
-- The candidates that CHEAPEST keeps: their results hold their prices, and every service of the action
-- that is open and priced is among them.
use mathlib.Core.Option.{some-injective}
use jsyxi_shipping.Prelude.{
  ◌≡◌, ◌≢◌, refl, sym, subst, ◌∙◌, inl, inr, Bool, true, false, not, ◌&&◌, Option, none, some, List,
  [], ◌∷◌, arith, Text, All, All-both, All-weaken, All-of_filter, Bool-cases, Option-cases, text_eq,
  if◌then◌else◌,
}
use jsyxi_shipping.Prelude.Int.{ℤ}
use jsyxi_shipping.Rules.Model.{
  RuleDef, CandidateFacts, CandidateQuote, CandidateResult, CostSource, EvaluateInput, Host,
  no_source,
}
use jsyxi_shipping.Rules.Decimals.{parse_decimal}
use jsyxi_shipping.Rules.Condition.{has_text}
use jsyxi_shipping.Rules.Filters.{is_some, price_of}
use jsyxi_shipping.Rules.Candidates.{
  Store, RunCandidate, eliminated_in, facts_for, get_result, has_id, new_result, or_text, quote_of,
}
use jsyxi_shipping.Rules.Candidates.Store.{find-All, text_eq→≡}
use jsyxi_shipping.Rules.Candidates.Run.{
  All-build_run, Entered, build_run-Entered, build_run-Exact, build_run-covers, Exact-eliminated,
  present,
}
use jsyxi_shipping.Rules.Choice.{
  or_zero, against_price, cost_in, facts_priced, quote_price, screen, serviceable, usable_price,
  has_source,
}
use jsyxi_shipping.Rules.Evaluate.{action_filters, action_run, survivors}
use jsyxi_shipping.Rules.Evaluate.Loops.{screen-All, screen-covers, screen-kept, screen-passing}
use jsyxi_shipping.Rules.Selection.Action.{survivors-Entered}
use jsyxi_shipping.Rules.PriorityChain.{is_open_for}
use jsyxi_shipping.Rules.Cheapest.{HasPrice, price_text, price_value}

facts_for-All :
    (P : CandidateFacts → Type 0) (candidates : List CandidateFacts) (id : Text)
    (f : CandidateFacts)
    → All P candidates
    → facts_for candidates id ≡ some f
    → P f
unfolding facts_for
facts_for-All P [] id f h e = cc
facts_for-All P (c ∷ candidates) id f (p, h) e = elim (Option-cases (facts_for candidates id)) [
  | inr (later, found) ↦
      let same : some later ≡ some f = rw (facts_for, found) at e in
      facts_for-All P candidates id f h (found ∙ same)
  | inl absent ↦ elim (Bool-cases (text_eq c.service_id id)) [
    | inl own ↦
        let same : some c ≡ some f = rw (facts_for, absent, own) at e in
        subst P (some-injective _ _ same) p
    | inr other ↦ let e' : none ≡ some f = rw (facts_for, absent, other) at e in cc
  ]
]

-- The price of the quote, where it has one, is a decimal.
abbrev pub decimal_or_none : Option Text → Bool
decimal_or_none none = true
decimal_or_none (some price) = is_some (parse_decimal price)

abbrev pub IsDecimalPriced : CandidateFacts → Type 0
IsDecimalPriced f = decimal_or_none (price_of f.quote) ≡ true

is_some-or_zero : (o : Option ℤ) → is_some o ≡ true → o ≡ some (or_zero o)
is_some-or_zero none h = cc
is_some-or_zero (some n) h = refl

price_reads :
    (p : Option Text)
    → is_some p ≡ true
    → decimal_or_none p ≡ true
    → parse_decimal (or_text p (b'0' ∷ [])) ≡ some (or_zero (parse_decimal (or_text p (b'0' ∷ []))))
price_reads none h d = cc
price_reads (some t) h d = is_some-or_zero (parse_decimal t) d

quote_has_price :
    (b : Bool) (q : Option CandidateQuote)
    → (if b then quote_price q else false) ≡ true
    → is_some (price_of q) ≡ true
quote_has_price false q h = cc
quote_has_price true none h = cc
quote_has_price true (some q) h = elim (Bool-cases q.rate_available) [
  | inl on ↦ rw on (rw on at h)
  | inr off ↦ let e : false ≡ true = rw off at h in cc
]

priced_reads :
    (facts : Option CandidateFacts)
    → facts_priced facts ≡ true
    → ((f : CandidateFacts) → facts ≡ some f → IsDecimalPriced f)
    → parse_decimal (price_text facts) ≡ some (price_value facts)
priced_reads none priced decimal = cc
priced_reads (some f) priced decimal =
    price_reads (price_of f.quote) (quote_has_price (has_source f.cost_source) f.quote priced)
      (decimal f refl)

-- A cost source, and a quote with an available rate and a total.
abbrev pub IsPriced : Option CandidateFacts → Type 0
IsPriced facts =
    (f : CandidateFacts) × (facts ≡ some f)
    × (f.cost_source ≢ no_source)
    × ((q : CandidateQuote) × (f.quote ≡ some q) × (q.rate_available ≡ true) × (q.total ≢ none))

source_given : (s : CostSource) → has_source s ≡ true → s ≢ no_source
source_given no_source h e = cc
source_given _ h e = cc

some_given : (o : Option Text) → is_some o ≡ true → o ≢ none
some_given none h e = cc
some_given (some t) h e = cc

pub price-IsPriced : (facts : Option CandidateFacts) → facts_priced facts ≡ true → IsPriced facts
price-IsPriced none h = cc
price-IsPriced (some f) h = elim (Bool-cases (has_source f.cost_source)) [
  | inr off ↦ let e : false ≡ true = rw off at h in cc
  | inl given ↦ elim (Option-cases f.quote) [
    | inl absent ↦ let e : false ≡ true = rw (given, absent) at h in cc
    | inr (q, there) ↦ elim (Bool-cases q.rate_available) [
      | inr off ↦ let e : false ≡ true = rw (given, there, off) at h in cc
      | inl on ↦ (
        f,
        refl,
        source_given f.cost_source given,
        (q, there, on, some_given q.total (rw (given, there, on) at h)),
      )
    ]
  ]
]

module _ (host : Host) (input : EvaluateInput) (rule : RuleDef) where
  abbrev pub screened : List RunCandidate × Store
  screened = screen against_price (survivors host input rule) (action_run host input rule).1

  -- The cost of a result is the price of its service.
  abbrev IsCosted : CandidateResult → Type 0
  IsCosted r = r.cost ≡ price_of (quote_of (facts_for input.candidates r.service_id))

  new-IsCosted : (id : Text) → IsCosted (new_result (facts_for input.candidates id) id)
  unfolding new_result
  new-IsCosted id = refl

  screened-IsCosted : All IsCosted screened.1
  screened-IsCosted =
      screen-All IsCosted against_price (survivors host input rule) _ (λ reason r p. p)
        (All-build_run host input.candidates rule.excluded_service_ids
          (action_filters host input rule) IsCosted (λ r p. p) new-IsCosted 0
          rule.action_service_ids [] tt)

  cost_in-screened :
      (c : RunCandidate)
      → c.facts ≡ facts_for input.candidates c.service_id
      → present c.service_id screened.1 ≡ true
      → cost_in screened.1 c ≡ price_text c.facts
  cost_in-screened c same there = elim (Option-cases (get_result c.service_id screened.1)) [
    | inl absent ↦ let e : false ≡ true = rw absent at there in cc
    | inr (r, found) ↦
        let (costed, own) =
          find-All IsCosted (has_id c.service_id) screened.1 r screened-IsCosted found in
        rw (found, costed, text_eq→≡ r.service_id c.service_id own, same) refl
  ]

  abbrev IsEntered : RunCandidate → Type 0
  IsEntered =
      Entered host input.candidates rule.excluded_service_ids (action_filters host input rule)
        rule.action_service_ids (action_run host input rule).1

  clear_usable : (c : RunCandidate) → against_price c ≡ none → usable_price c ≡ true
  unfolding against_price
  clear_usable c h = ground arith

  usable_clear :
      (c : RunCandidate) → serviceable c ≡ true → usable_price c ≡ true → against_price c ≡ none
  unfolding against_price
  usable_clear c good usable = rw (good, usable) refl

  -- What is kept has the facts of its service, and a usable price.
  pub kept_facts :
      All
        (λ c. (c.facts ≡ facts_for input.candidates c.service_id) × (facts_priced c.facts ≡ true))
        screened.0
  unfolding usable_price
  kept_facts =
      All-weaken _ _ _ (λ c (((same, _, _, _), _), clear). (same, clear_usable c clear))
        (screen-kept _ against_price _ _ (survivors-Entered host input rule))

  pub kept-HasPrice : All IsDecimalPriced input.candidates → All (HasPrice screened.1) screened.0
  unfolding usable_price
  kept-HasPrice decimal =
      All-weaken _ _ _
        (λ c (((same, _, _, there), _), clear). (
          cost_in-screened c same (still_present c there),
          priced_reads c.facts (clear_usable c clear) (λ f e.
              facts_for-All IsDecimalPriced input.candidates c.service_id f decimal (sym same ∙ e)),
        ))
        (screen-kept _ against_price _ _ (survivors-Entered host input rule))
    where
      still_present :
          (c : RunCandidate)
          → present c.service_id (action_run host input rule).1 ≡ true
          → present c.service_id screened.1 ≡ true
      still_present c there =
          screen-passing (λ r. true) against_price _ _ c.service_id (λ reason r k. refl) there

  -- What holds of the facts of all that is kept holds of any open, priced service of the action.
  module _ (Q : Option CandidateFacts → Type 0) where
    abbrev pub Covered : Text → Type 0
    Covered other =
        is_open_for host input rule other ≡ true
        → facts_priced (facts_for input.candidates other) ≡ true
        → Q (facts_for input.candidates other)

    survivor-Covered :
        (c : RunCandidate)
        → (against_price c ≡ none → Q c.facts)
        → IsEntered c
        → Covered c.service_id
    unfolding serviceable usable_price
    survivor-Covered c holds (same, _, _, _) opened priced =
        rw (← same) (holds (usable_clear c (rw same (second _ _ opened)) (rw same priced)))
      where
        second : (a b : Bool) → (a && b) ≡ true → b ≡ true
        second a b h = ground arith

    dropped-Covered :
        (c : RunCandidate)
        → not (eliminated_in (action_run host input rule).1 c) ≡ false
        → IsEntered c
        → Covered c.service_id
    dropped-Covered c out (_, _, _, there) opened priced = absurd (
        clash _ _ _ out
          (Exact-eliminated host input.candidates rule.excluded_service_ids
            (action_filters host input rule) _ c
            (build_run-Exact host input.candidates rule.excluded_service_ids
              (action_filters host input rule) 0 rule.action_service_ids)
            there)
          opened)
      where
        clash : (e b d : Bool) → not e ≡ false → e ≡ not b → (b && d) ≡ true → ⊥
        clash e b d out f h = ground arith

    pub kept_cover :
        (other : Text)
        → All (λ c. Q c.facts) screened.0
        → has_text other rule.action_service_ids ≡ true
        → Covered other
    kept_cover other h listed =
        build_run-covers host input.candidates rule.excluded_service_ids
          (action_filters host input rule) Covered 0 rule.action_service_ids [] other
          (All-weaken _ _ _ (λ c (holds, entered). holds entered)
            (All-both _ IsEntered (action_run host input rule).0
              (All-of_filter (λ c. IsEntered c → Covered c.service_id)
                (λ c. not (eliminated_in (action_run host input rule).1 c)) _
                (All-weaken _ _ _ survivor-Covered
                  (screen-covers _ against_price (survivors host input rule) _ h))
                dropped-Covered)
              (build_run-Entered host input.candidates rule.excluded_service_ids
                (action_filters host input rule) 0 rule.action_service_ids [])))
          listed
