-- ===== src/Rules/FirstMatch.antt =====
-- The scan of the rules against a search: the first rule that applies is the one that is matched.
use mathlib.Core.Option.{some-injective}
use jsyxi_shipping.Prelude.{
  ◌≡◌, refl, ap, subst, inl, inr, Bool, true, false, not, ◌&&◌, none, some, List, [], ◌∷◌, ◌++◌,
  map, All, Bool-cases, any, all, find,
}
use jsyxi_shipping.Prelude.Int.{ℤ}
use jsyxi_shipping.Rules.Model.{
  ConditionDef, ConditionGroupDef, RuleDef, OrderFacts, matched, not_evaluated, RuleTrace,
  ConditionTrace, GroupTrace, Host, LocalParts,
}
use jsyxi_shipping.Rules.OrderCondition.{eval_condition}
use jsyxi_shipping.Rules.Scan.{
  any_group, condition_trace, group_trace, outside_schedule, scan_rules, trace_of, visit_rule,
  visit_with,
}

module _ (host : Host) (now : ℤ) (order : OrderFacts) (local : LocalParts) where
  abbrev pub holds : ConditionDef → Bool
  holds c = (eval_condition host c order local).is_match

  -- A rule applies if it is active, in its window, and all conditions of one of its groups hold.
  abbrev pub applies : RuleDef → Bool
  applies rule =
      rule.is_active
      && not (outside_schedule host now rule)
      && any (λ (g : ConditionGroupDef). all holds g.conditions) rule.groups

  all-trace :
      (conditions : List ConditionDef)
      → all
          (λ (c : ConditionTrace). c.is_match)
          (map (condition_trace host now order local) conditions)
        ≡ all holds conditions
  all-trace [] = refl
  all-trace (c ∷ conditions) = ap (λ b. holds c && b) (all-trace conditions)

  any-trace :
      (groups : List ConditionGroupDef)
      → any_group host now order local (map (group_trace host now order local) groups)
        ≡ any (λ (g : ConditionGroupDef). all holds g.conditions) groups
  any-trace [] = refl
  any-trace (g ∷ groups) = rw (all-trace g.conditions, any-trace groups)

  visit_with-lem :
      (rule : RuleDef) (on outside : Bool) (groups : List GroupTrace)
      → ((visit_with host now order local rule on outside groups).1
          ≡ (on && not outside && any_group host now order local groups))
        × ((on && not outside && any_group host now order local groups) ≡ true
            → (visit_with host now order local rule on outside groups).0.status ≡ matched)
  visit_with-lem rule false outside groups = (refl, λ h. cc)
  visit_with-lem rule true true groups = (refl, λ h. cc)
  visit_with-lem rule true false groups = (refl, λ h. rw h refl)

  visit_rule-applies :
      (rule : RuleDef)
      → ((visit_rule host now order local rule).1 ≡ applies rule)
        × (applies rule ≡ true → (visit_rule host now order local rule).0.status ≡ matched)
  unfolding visit_rule
  visit_rule-applies rule =
      subst
        (λ b.
          let verdict = rule.is_active && not (outside_schedule host now rule) && b in
          ((visit_rule host now order local rule).1 ≡ verdict)
          × (verdict ≡ true → (visit_rule host now order local rule).0.status ≡ matched))
        (any-trace rule.groups)
        (visit_with-lem rule rule.is_active (outside_schedule host now rule)
          (map (group_trace host now order local) rule.groups))

  abbrev pub skipped : List RuleDef → List RuleTrace
  skipped = map (λ r. trace_of r not_evaluated [])

  abbrev pub visited : RuleDef → RuleTrace
  visited rule = (visit_rule host now order local rule).0

  scan_rules-some :
      (hit : RuleDef) (rules : List RuleDef)
      → scan_rules host now order local (some hit) rules ≡ (skipped rules, some hit)
  unfolding scan_rules
  scan_rules-some hit [] = refl
  scan_rules-some hit (rule ∷ rules) = rw (scan_rules-some hit rules) refl

  module _ (first : RuleDef) (rules : List RuleDef) where
    scan_rules-hit :
        applies first ≡ true
        → scan_rules host now order local none (first ∷ rules)
          ≡ (visited first ∷ skipped rules, some first)
    unfolding scan_rules
    scan_rules-hit hit = rw ((visit_rule-applies first).0, hit, scan_rules-some first rules) refl

    scan_rules-miss :
        applies first ≡ false
        → scan_rules host now order local none (first ∷ rules) ≡ (
          visited first ∷ (scan_rules host now order local none rules).0,
          (scan_rules host now order local none rules).1,
        )
    unfolding scan_rules
    scan_rules-miss miss = rw ((visit_rule-applies first).0, miss) refl

  -- The loop and the search agree.
  pub scan_rules-find :
      (rules : List RuleDef) → (scan_rules host now order local none rules).1 ≡ find applies rules
  scan_rules-find [] = unfold scan_rules in refl
  scan_rules-find (rule ∷ rules) = elim (Bool-cases (applies rule)) [
    | inl hit ↦ rw (scan_rules-hit rule rules hit, hit) refl
    | inr miss ↦ rw (scan_rules-miss rule rules miss, miss) (scan_rules-find rules)
  ]

  abbrev pub IsFirstMatch : RuleDef → List RuleDef → List RuleTrace → Type 0
  IsFirstMatch rule rules traces =
      (before : List RuleDef) × (after : List RuleDef) × (rules ≡ before ++ rule ∷ after)
      × All (λ r. applies r ≡ false) before
      × (applies rule ≡ true)
      × ((visited rule).status ≡ matched)
      × (traces ≡ map visited before ++ visited rule ∷ skipped after)

  IsFirstMatch-here :
      (first rule : RuleDef) (rules : List RuleDef)
      → applies first ≡ true
      → some first ≡ some rule
      → IsFirstMatch rule (first ∷ rules) (visited first ∷ skipped rules)
  IsFirstMatch-here first rule rules hit e =
      subst (λ r. IsFirstMatch r (first ∷ rules) (visited first ∷ skipped rules))
        (some-injective _ _ e) ([], rules, refl, tt, hit, (visit_rule-applies first).1 hit, refl)

  IsFirstMatch-later :
      (first rule : RuleDef) (rules : List RuleDef) (traces : List RuleTrace)
      → applies first ≡ false
      → IsFirstMatch rule rules traces
      → IsFirstMatch rule (first ∷ rules) (visited first ∷ traces)
  IsFirstMatch-later first rule rules traces miss
        (before, after, split, none_before, applied, flagged, shape) =
      (
        first ∷ before,
        after,
        ap (◌∷◌ first) split,
        (miss, none_before),
        applied,
        flagged,
        ap (◌∷◌ (visited first)) shape,
      )

  -- If the scan matches a rule, the rules split around it: it is active, in its window, and all conditions
  -- of one of its groups hold, which is so of no rule before it; the traces are the visits of the rules
  -- before it, its own with the status MATCHED, and NOT_EVALUATED for all after it.
  pub scan_rules-IsFirstMatch :
      (rules : List RuleDef) (rule : RuleDef)
      → (scan_rules host now order local none rules).1 ≡ some rule
      → IsFirstMatch rule rules (scan_rules host now order local none rules).0
  scan_rules-IsFirstMatch [] rule e = unfold scan_rules in cc
  scan_rules-IsFirstMatch (first ∷ rules) rule e = elim (Bool-cases (applies first)) [
    | inl hit ↦
        let same : some first ≡ some rule = rw (scan_rules-hit first rules hit) at e in
        rw (scan_rules-hit first rules hit) (IsFirstMatch-here first rule rules hit same)
    | inr miss ↦
        let e' : (scan_rules host now order local none rules).1 ≡ some rule =
          rw (scan_rules-miss first rules miss) at e in
        rw (scan_rules-miss first rules miss)
          (IsFirstMatch-later first rule rules _ miss (scan_rules-IsFirstMatch rules rule e'))
  ]
