-- ===== src/Rules/Choice.antt =====
-- src/modules/rules/evaluate.ts: the tests of a candidate, the loops of the actions
-- over a run, and the comparisons of CHEAPEST and FASTEST.
use jsyxi_shipping.Prelude.{
  Bool, true, false, not, Option, none, some, List, [], ◌∷◌, ◌++◌, Text, codes, is_empty,
  if◌then◌else◌,
}
use jsyxi_shipping.Prelude.Int.{ℤ, pos, eq_ℤ, ◌-ℤ◌}
use jsyxi_shipping.Rules.Model.{
  CandidateQuote, CandidateFacts, CostSource, no_source, EliminationReason, not_serviceable,
  price_unavailable, edd_missing, edd_stale, CandidateResult,
}
use jsyxi_shipping.Rules.Decimals.{cmp_decimal}
use jsyxi_shipping.Rules.Filters.{is_some, join}
use jsyxi_shipping.Rules.Candidates.{
  Store, RunCandidate, and_then, eliminate, eliminated_in, get_result, mark_selected, or_text,
  quote_of, update_result,
}

abbrev pub quote_serviceable : Option CandidateQuote → Bool
quote_serviceable none = true
quote_serviceable (some quote) = quote.serviceable

abbrev pub facts_serviceable : Option CandidateFacts → Bool
facts_serviceable none = false
facts_serviceable (some facts) = quote_serviceable facts.quote

unfoldable pub serviceable : RunCandidate → Bool
serviceable c = facts_serviceable c.facts

abbrev pub has_source : CostSource → Bool
has_source no_source = false
has_source _ = true

abbrev pub quote_price : Option CandidateQuote → Bool
quote_price none = false
quote_price (some quote) = if quote.rate_available then is_some quote.total else false

abbrev pub facts_priced : Option CandidateFacts → Bool
facts_priced none = false
facts_priced (some facts) = if has_source facts.cost_source then quote_price facts.quote else false

unfoldable pub usable_price : RunCandidate → Bool
usable_price c = facts_priced c.facts

pub data EddState : Type 0 where
  usable missing stale : EddState

abbrev pub failure_reasons_of : Option CandidateQuote → List Text
failure_reasons_of none = []
failure_reasons_of (some quote) = quote.failure_reasons

abbrev pub text_or : Text → Text → Text
text_or text other = if is_empty text then other else text

unfoldable pub not_serviceable_reason : RunCandidate → EliminationReason
not_serviceable_reason c = record {
  code = not_serviceable;
  detail =
      text_or (join (codes "; ") (failure_reasons_of (quote_of c.facts)))
        (codes "lane not serviceable");
}

abbrev pub unpriced_text : Option CandidateFacts → Text
unpriced_text none = codes "no usable price"
unpriced_text (some facts) =
    if has_source facts.cost_source then codes "no usable price" else codes "COST_SOURCE = NONE"

unfoldable pub price_reason : RunCandidate → EliminationReason
price_reason c = record {
  code = price_unavailable;
  detail =
      or_text (and_then c.facts (λ (f : CandidateFacts). f.quote_error)) (unpriced_text c.facts);
}

abbrev pub fetched_at_of : RunCandidate → Option Text
fetched_at_of c = and_then (quote_of c.facts) (λ (q : CandidateQuote). q.fetched_at)

unfoldable pub edd_reason : EddState → RunCandidate → EliminationReason
edd_reason stale c = record {
  code = edd_stale;
  detail =
      codes "quote fetched at "
      ++ or_text (fetched_at_of c) (codes "?")
      ++ codes " older than S-18";
}
edd_reason _ c = record { code = edd_missing; detail = codes "no EDD on the quote" }

-- The loop of PRIORITY_CHAIN.
unfoldable pub run_priority_chain : List RunCandidate → Store → Option RunCandidate × Store
run_priority_chain [] store = (none, store)
run_priority_chain (c ∷ run) store = elim (eliminated_in store c) [
  | true ↦ run_priority_chain run store
  | false ↦ elim (serviceable c) [
    | false ↦
        run_priority_chain run
          (update_result (eliminate (not_serviceable_reason c)) c.service_id store)
    | true ↦ (some c, update_result mark_selected c.service_id store)
  ]
]

-- The loops of CHEAPEST and FASTEST, which differ in the reason that they find against a candidate.
unfoldable pub screen :
    (RunCandidate → Option EliminationReason)
    → List RunCandidate
    → Store
    → List RunCandidate × Store
screen against [] store = ([], store)
screen against (c ∷ run) store = elim (against c) [
  | some reason ↦ screen against run (update_result (eliminate reason) c.service_id store)
  | none ↦ let (kept, after) = screen against run store in (c ∷ kept, after)
]

unfoldable pub against_price : RunCandidate → Option EliminationReason
against_price c =
    if not (serviceable c)
    then some (not_serviceable_reason c)
    else if not (usable_price c)
    then some (price_reason c)
    else none

abbrev pub result_text : (CandidateResult → Option Text) → Store → RunCandidate → Option Text
result_text read store c = and_then (get_result c.service_id store) read

abbrev pub or_zero : Option ℤ → ℤ
or_zero none = pos 0
or_zero (some n) = n

abbrev pub facts_tiebreak : Option CandidateFacts → ℤ
facts_tiebreak facts =
    or_zero (and_then facts (λ (f : CandidateFacts). some f.priority_tiebreak_order))

abbrev pub tiebreak_of : RunCandidate → ℤ
tiebreak_of c = facts_tiebreak c.facts

-- The tie break of both comparisons: the merchant's order, then the place in the chain.
abbrev pub compare_ties : RunCandidate → RunCandidate → ℤ
compare_ties a b =
    let tie = tiebreak_of a -ℤ tiebreak_of b in
    if not (eq_ℤ tie (pos 0)) then tie else pos a.chain_position -ℤ pos b.chain_position

abbrev pub cost_in : Store → RunCandidate → Text
cost_in store c = or_text (result_text (λ (r : CandidateResult). r.cost) store c) (b'0' ∷ [])

unfoldable pub compare_cost : Store → RunCandidate → RunCandidate → ℤ
compare_cost store a b =
    let cmp = or_zero (cmp_decimal (cost_in store a) (cost_in store b)) in
    if not (eq_ℤ cmp (pos 0)) then cmp else compare_ties a b
