-- ===== src/Rules/Scan.antt =====
-- src/modules/rules/evaluate.ts: the scan of the rules from the top, which stops at the first match, and
-- the trace that it leaves of every rule.
use jsyxi_shipping.Prelude.{
  Bool, true, false, Option, none, some, List, [], ◌∷◌, map, Text, any, all, if◌then◌else◌,
}
use jsyxi_shipping.Prelude.Int.{ℤ, ltb_ℤ, leb_ℤ}
use jsyxi_shipping.Rules.Model.{
  ConditionDef, ConditionGroupDef, RuleDef, OrderFacts, RuleTraceStatus, matched, no_match,
  skipped_inactive, skipped_schedule, not_evaluated, ConditionTrace, GroupTrace, RuleTrace, Host,
  LocalParts,
}
use jsyxi_shipping.Rules.OrderCondition.{eval_condition}

abbrev pub trace_of : RuleDef → RuleTraceStatus → List GroupTrace → RuleTrace
trace_of rule status groups = record {
  rule_id = rule.rule_id;
  name = rule.name;
  version = rule.version;
  position = rule.position;
  status = status;
  groups = groups;
}

module _ (host : Host) (now : ℤ) where
  abbrev pub before_start : Option Text → Bool
  before_start none = false
  before_start (some from) = elim (host.date_parse from) [
    | none ↦ false
    | some start ↦ ltb_ℤ now start
  ]

  abbrev pub after_end : Option Text → Bool
  after_end none = false
  after_end (some to) = elim (host.date_parse to) [ none ↦ false | some end ↦ leb_ℤ end now ]

  unfoldable pub outside_schedule : RuleDef → Bool
  outside_schedule rule = if before_start rule.active_from then true else after_end rule.active_to

  module _ (order : OrderFacts) (local : LocalParts) where
    abbrev pub condition_trace : ConditionDef → ConditionTrace
    condition_trace c =
        let out = eval_condition host c order local in
        record {
          field = c.field;
          operator = c.operator;
          value = c.value;
          operand = out.operand;
          is_match = out.is_match;
          note = out.note;
        }

    abbrev pub group_trace : ConditionGroupDef → GroupTrace
    group_trace g =
        let conditions = map condition_trace g.conditions in
        record {
          position = g.position;
          is_match = all (λ (c : ConditionTrace). c.is_match) conditions;
          conditions = conditions;
        }

    abbrev pub any_group : List GroupTrace → Bool
    any_group groups = any (λ (g : GroupTrace). g.is_match) groups

    -- The body of the loop while no rule has matched: the trace, and whether the rule matches.
    abbrev pub visit_with : RuleDef → Bool → Bool → List GroupTrace → RuleTrace × Bool
    visit_with rule false outside groups = (trace_of rule skipped_inactive [], false)
    visit_with rule true true groups = (trace_of rule skipped_schedule [], false)
    visit_with rule true false groups =
        (trace_of rule (if any_group groups then matched else no_match) groups, any_group groups)

    unfoldable pub visit_rule : RuleDef → RuleTrace × Bool
    visit_rule rule =
        visit_with rule rule.is_active (outside_schedule rule) (map group_trace rule.groups)

    -- The loop, with the rule that has matched so far.
    unfoldable pub scan_rules : Option RuleDef → List RuleDef → List RuleTrace × Option RuleDef
    unfolding visit_rule
    scan_rules hit [] = ([], hit)
    scan_rules (some hit) (rule ∷ rules) =
        let (traces, last) = scan_rules (some hit) rules in
        (trace_of rule not_evaluated [] ∷ traces, last)
    scan_rules none (rule ∷ rules) =
        let (trace, is_match) = visit_rule rule in
        let (traces, last) = scan_rules (if is_match then some rule else none) rules in
        (trace ∷ traces, last)
