-- ===== src/Rules/Candidates.antt =====
-- src/modules/rules/evaluate.ts: the results of the candidate services, which the code keeps in a Map by
-- service id and writes through the references that a run holds; here a list of results by service id,
-- passed from one step to the next.
pub mod Store
pub mod Run
use jsyxi_shipping.Prelude.{
  ℕ, suc, Bool, true, false, not, Option, none, some, List, [], ◌∷◌, ◌++◌, Text, codes, find,
  is_empty, text_eq, if◌then◌else◌,
}
use jsyxi_shipping.Rules.Model.{
  CandidateQuote, CandidateFacts, EliminationReason, service_unknown, excluded_by_rule,
  not_bookable, CandidateResult, Host,
}
use jsyxi_shipping.Rules.Condition.{has_text}
use jsyxi_shipping.Rules.Filters.{CandidateFilters, candidate_filter_reasons, price_of}

abbrev pub Store : Type 0
Store = List CandidateResult

-- `factsByService.get(id)`: of two entries under one id the Map holds the later.
unfoldable pub facts_for : List CandidateFacts → Text → Option CandidateFacts
facts_for [] id = none
facts_for (c ∷ candidates) id = elim (facts_for candidates id) [
  | some later ↦ some later
  | none ↦ if text_eq c.service_id id then some c else none
]

-- `facts?.x ?? null` and `facts?.quote?.x ?? null`
abbrev pub and_then {ℓ κ} : {A : Type ℓ} {B : Type κ} → Option A → (A → Option B) → Option B
and_then none f = none
and_then (some a) f = f a

abbrev pub quote_of : Option CandidateFacts → Option CandidateQuote
quote_of facts = and_then facts (λ (f : CandidateFacts). f.quote)

unfoldable pub new_result : Option CandidateFacts → Text → CandidateResult
new_result facts id = record {
  service_id = id;
  cost_source = and_then facts (λ (f : CandidateFacts). some f.cost_source);
  cost = price_of (quote_of facts);
  edd_from = and_then (quote_of facts) (λ (q : CandidateQuote). q.edd_from);
  edd_to = and_then (quote_of facts) (λ (q : CandidateQuote). q.edd_to);
  quote_fetched_at = and_then (quote_of facts) (λ (q : CandidateQuote). q.fetched_at);
  zone = and_then facts (λ (f : CandidateFacts). f.zone);
  volumetric_weight_kg = and_then facts (λ (f : CandidateFacts). f.volumetric_weight_kg);
  eliminated = false;
  reasons = [];
  selected = false;
}

abbrev pub has_id : Text → CandidateResult → Bool
has_id id r = text_eq r.service_id id

abbrev pub get_result : Text → Store → Option CandidateResult
get_result id store = find (has_id id) store

-- `resultFor`: the result is created where there is none, at the end of the Map's order.
unfoldable pub result_for : List CandidateFacts → Text → Store → Store
result_for candidates id store = elim (get_result id store) [
  | some existing ↦ store
  | none ↦ store ++ new_result (facts_for candidates id) id ∷ []
]

-- A write through a reference to the result of a service.
unfoldable pub update_result : (CandidateResult → CandidateResult) → Text → Store → Store
update_result write id [] = []
update_result write id (r ∷ store) =
    (if has_id id r then write r else r) ∷ update_result write id store

-- `result.reasons.push(…reasons); result.eliminated = result.reasons.length > 0`
abbrev pub push_reasons : List EliminationReason → CandidateResult → CandidateResult
push_reasons reasons r =
    let all_reasons = r.reasons ++ reasons in
    record r { reasons = all_reasons; eliminated = not (is_empty all_reasons) }

-- `result.reasons.push(reason); result.eliminated = true`
abbrev pub eliminate : EliminationReason → CandidateResult → CandidateResult
eliminate reason r = record r { reasons = r.reasons ++ reason ∷ []; eliminated = true }

abbrev pub mark_selected : CandidateResult → CandidateResult
mark_selected r = record r { selected = true }

-- `result` is a reference to the result of `service_id`.
pub record RunCandidate : Type 0 where
  pub facts : Option CandidateFacts
  pub service_id : Text
  pub chain_position : ℕ

abbrev pub is_eliminated : Option CandidateResult → Bool
is_eliminated none = false
is_eliminated (some r) = r.eliminated

abbrev pub eliminated_in : Store → RunCandidate → Bool
eliminated_in store c = is_eliminated (get_result c.service_id store)

abbrev pub or_text : Option Text → Text → Text
or_text none other = other
or_text (some text) other = text

unfoldable pub unknown_reason : EliminationReason
unknown_reason = record { code = service_unknown; detail = codes "no merchant service row" }

unfoldable pub excluded_reason : EliminationReason
excluded_reason = record { code = excluded_by_rule; detail = codes "in rule excluded_service_ids" }

unfoldable pub not_bookable_reason : CandidateFacts → EliminationReason
not_bookable_reason facts = record {
  code = not_bookable;
  detail = or_text facts.not_bookable_reason (codes "merchant service not enabled");
}

module _ (host : Host) (candidates : List CandidateFacts) where
  module _ (excluded : List Text) (filters : Option CandidateFilters) where
    abbrev pub filter_reasons : Option CandidateFilters → CandidateFacts → List EliminationReason
    filter_reasons none facts = []
    filter_reasons (some f) facts = candidate_filter_reasons host facts f

    -- What `buildRun` pushes for one service.
    unfoldable pub entry_reasons : Text → Option CandidateFacts → List EliminationReason
    entry_reasons id none = unknown_reason ∷ []
    entry_reasons id (some facts) =
        (if has_text id excluded then excluded_reason ∷ [] else [])
        ++ (if facts.bookable then [] else not_bookable_reason facts ∷ [])
        ++ filter_reasons filters facts

    -- The callback of the map over the service ids, and the map from a position on.
    unfoldable pub enter : Text → Store → Store
    unfolding result_for update_result
    enter id store =
        update_result (push_reasons (entry_reasons id (facts_for candidates id))) id
          (result_for candidates id store)

    unfoldable pub build_run : ℕ → List Text → Store → List RunCandidate × Store
    unfolding enter
    build_run position [] store = ([], store)
    build_run position (id ∷ ids) store =
        let (run, after) = build_run (suc position) ids (enter id store) in
        (
          record { facts = facts_for candidates id; service_id = id; chain_position = position }
              ∷ run,
          after,
        )
