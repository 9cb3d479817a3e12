-- ===== src/RateEngine/Zone/Resolution.antt =====
-- Which rule decides a zone.
use jsyxi_shipping.Prelude.{
  ◌≡◌, refl, true, false, Option, none, some, List, [], ◌∷◌, arith, Text, All, find,
}
use jsyxi_shipping.Prelude.Sort.{sort_by, IsFirst, find-sort_by, find-sort_by-none}
use jsyxi_shipping.RateEngine.Freight.{ZoneCode}
use jsyxi_shipping.RateEngine.Zone.{
  MatcherAttribute, pincode, MatcherPredicate, ZoneMatcher, ZoneRuleInput, Place, attributes_of,
  predicate_matches, matcher_matches, rule_matches, zone_of, resolve_zone,
}

module _ (to_lower : Text → Text) where
  -- A zone comes from a rule that matches both places, no matching rule standing before it; there is
  -- no zone exactly where no rule matches.
  abbrev pub Resolved : List ZoneRuleInput → Place → Place → Option ZoneCode → Type 0
  Resolved rules origin destination none =
      All (λ r. rule_matches to_lower origin destination r ≡ false) rules
  Resolved rules origin destination (some zone) =
      (r : ZoneRuleInput) × (r.zone ≡ zone)
      × IsFirst (λ (r : ZoneRuleInput). r.position) (rule_matches to_lower origin destination) r
          rules

  zone_of-Resolved :
      (rules : List ZoneRuleInput) (origin destination : Place) (found : Option ZoneRuleInput)
      → find
          (rule_matches to_lower origin destination)
          (sort_by (λ (r : ZoneRuleInput). r.position) rules)
        ≡ found
      → Resolved rules origin destination (zone_of found)
  zone_of-Resolved rules origin destination none e =
      find-sort_by-none _ (rule_matches to_lower origin destination) rules e
  zone_of-Resolved rules origin destination (some r) e =
      (r, refl, find-sort_by _ (rule_matches to_lower origin destination) rules r e)

  -- `resolveZone` returns the zone of a rule that is in the list, matches the origin and the
  -- destination, and has the least position of all rules that do; where it returns none, no rule of
  -- the list matches.
  pub resolve_zone-Resolved :
      (rules : List ZoneRuleInput) (origin destination : Place)
      → Resolved rules origin destination (resolve_zone to_lower rules origin destination)
  unfolding resolve_zone
  resolve_zone-Resolved rules origin destination = zone_of-Resolved rules origin destination _ refl

  unlisted_entry :
      (attribute : MatcherAttribute) (predicate : MatcherPredicate) (place : Place)
      → place.attributes ≡ none
      → predicate_matches to_lower attribute predicate (attributes_of place) ≡ true
      → attribute ≡ pincode
  unfolding predicate_matches attributes_of
  unlisted_entry pincode p place h e = refl
  unlisted_entry _ p place h e = cc (rw h at e)

  -- Missing data never matches: a matcher that matches a pincode which the postal master lacks
  -- tests the pincode itself and no other attribute.
  pub unlisted-matches :
      (matcher : ZoneMatcher) (place : Place)
      → place.attributes ≡ none
      → matcher_matches to_lower matcher (attributes_of place) ≡ true
      → All (λ e. e.0 ≡ pincode) matcher
  unfolding matcher_matches
  unlisted-matches [] place h e = tt
  unlisted-matches ((attribute, predicate) ∷ matcher) place h e = (
    unlisted_entry attribute predicate place h (ground arith),
    unlisted-matches matcher place h (ground arith),
  )
