-- ===== src/Rules/Cheapest.antt =====
-- CHEAPEST sorts by price, then by the merchant's order and the place in the chain.
pub mod Screened
pub mod Least
use mathlib.Core.Option.{some-injective}
use jsyxi_shipping.Prelude.{
  ℕ, ◌≡◌, refl, sym, ap, subst, ◌∙◌, inl, inr, Bool, true, false, not, ◌&&◌, Option, none, some,
  List, [], ◌∷◌, arith, Text, All, All-both, All-weaken, All-filter, All-of_filter, Bool-cases,
  Option-cases, text_eq, if◌then◌else◌,
}
use jsyxi_shipping.Prelude.Int.{ℤ, pos, eq_ℤ, leb_ℤ, ◌-ℤ◌, ◌≤ℤ◌}
use jsyxi_shipping.Prelude.Compare.{
  FirstIsLeast, All-of_sort_compare, All-sort_compare, Before, first-sort_compare, sort_compare,
}
use jsyxi_shipping.Rules.Model.{
  cheapest, RuleDef, CandidateFacts, CandidateResult, EliminationReason, EvaluateInput, RuleTrace,
  Host,
}
use jsyxi_shipping.Rules.Decimals.{cmp_decimal, parse_decimal, sign_of}
use jsyxi_shipping.Rules.Condition.{has_text}
use jsyxi_shipping.Rules.Filters.{CandidateFilters, is_some, price_of}
use jsyxi_shipping.Rules.Candidates.{
  Store, RunCandidate, and_then, eliminate, facts_for, get_result, has_id, new_result, or_text,
  push_reasons, quote_of,
}
use jsyxi_shipping.Rules.Candidates.Store.{find-All, text_eq→≡}
use jsyxi_shipping.Rules.Candidates.Run.{All-build_run, present}
use jsyxi_shipping.Rules.Choice.{
  compare_cost, compare_ties, cost_in, facts_priced, facts_tiebreak, or_zero, tiebreak_of,
}
use jsyxi_shipping.Rules.Lexical.{
  Rank, leb-lex_sign, lex, rank_leb, rank_tie, rank_total, rank_trans, rank_value,
}

abbrev pub price_text : Option CandidateFacts → Text
price_text facts = or_text (price_of (quote_of facts)) (b'0' ∷ [])

-- The price in millionths, which is what prices are compared by.
abbrev pub price_value : Option CandidateFacts → ℤ
price_value facts = or_zero (parse_decimal (price_text facts))

abbrev pub price_rank : RunCandidate → Rank
price_rank c = record {
  value = price_value c.facts;
  tie = tiebreak_of c;
  place = pos c.chain_position;
}

-- The comparison reads the price off the results, which hold what the facts say.
abbrev pub HasPrice : Store → RunCandidate → Type 0
HasPrice store c =
    (cost_in store c ≡ price_text c.facts)
    × (parse_decimal (price_text c.facts) ≡ some (price_value c.facts))

compare_cost-rank :
    (store : Store) (a b : RunCandidate)
    → HasPrice store a
    → HasPrice store b
    → leb_ℤ (compare_cost store a b) (pos 0) ≡ rank_leb (price_rank a) (price_rank b)
unfolding compare_cost cmp_decimal lex
compare_cost-rank store a b (same_a, reads_a) (same_b, reads_b) =
    ap (λ t. leb_ℤ (if not (eq_ℤ t (pos 0)) then t else compare_ties a b) (pos 0)) cmp
    ∙ leb-lex_sign (price_rank a) (price_rank b)
  where
    cmp :
        or_zero (cmp_decimal (cost_in store a) (cost_in store b))
        ≡ sign_of (price_value a.facts) (price_value b.facts)
    cmp = rw (same_a, same_b, reads_a, reads_b) refl

module _ (store : Store) where
  compare_cost_trans :
      (x y z : RunCandidate)
      → HasPrice store x
      → HasPrice store y
      → HasPrice store z
      → Before (compare_cost store) x y
      → Before (compare_cost store) y z
      → Before (compare_cost store) x z
  compare_cost_trans x y z hx hy hz xy yz =
      compare_cost-rank store x z hx hz
      ∙ rank_trans (price_rank x) (price_rank y) (price_rank z)
          (sym (compare_cost-rank store x y hx hy) ∙ xy)
          (sym (compare_cost-rank store y z hy hz) ∙ yz)

  compare_cost_total :
      (x y : RunCandidate)
      → HasPrice store x
      → HasPrice store y
      → leb_ℤ (compare_cost store x y) (pos 0) ≡ false
      → Before (compare_cost store) y x
  compare_cost_total x y hx hy later =
      compare_cost-rank store y x hy hx
      ∙ rank_total (price_rank x) (price_rank y) (sym (compare_cost-rank store x y hx hy) ∙ later)

-- `y` is no better than `x` at the price, nor at the merchant's order where the prices are equal.
abbrev pub NoBetter : Option CandidateFacts → Option CandidateFacts → Type 0
NoBetter y x =
    (price_value x ≤ℤ price_value y)
    × (eq_ℤ (price_value x) (price_value y) ≡ true → facts_tiebreak x ≤ℤ facts_tiebreak y)

rank-NoBetter :
    (x y : RunCandidate) → rank_leb (price_rank x) (price_rank y) ≡ true → NoBetter y.facts x.facts
rank-NoBetter x y h =
    (rank_value (price_rank x) (price_rank y) h, rank_tie (price_rank x) (price_rank y) h)

-- The first of the sorted candidates, against all of them.
pub first-NoBetter :
    (store : Store) (kept sorted : List RunCandidate) (c : RunCandidate)
    → All (HasPrice store) kept
    → sort_compare (compare_cost store) kept ≡ c ∷ sorted
    → All (λ d. NoBetter d.facts c.facts) kept
first-NoBetter store kept sorted c priced shape =
    All-of_sort_compare (compare_cost store) _ kept (rw shape (own, others))
  where
    all_priced : HasPrice store c × All (HasPrice store) sorted
    all_priced =
        subst (All (HasPrice store)) shape
          (All-sort_compare (compare_cost store) (HasPrice store) kept priced)

    least : All (Before (compare_cost store) c) sorted
    least = subst (FirstIsLeast (compare_cost store)) shape (
        first-sort_compare (compare_cost store) (HasPrice store) (compare_cost_trans store)
          (compare_cost_total store) kept priced)

    own : NoBetter c.facts c.facts
    own = (omega arith, λ same. omega arith)

    others : All (λ d. NoBetter d.facts c.facts) sorted
    others =
        All-weaken _ _ sorted
          (λ d (h, before).
            rank-NoBetter c d (sym (compare_cost-rank store c d all_priced.0 h) ∙ before))
          (All-both (HasPrice store) _ sorted all_priced.1 least)
