-- ===== src/RateEngine/Zone.antt =====
-- src/modules/rate-engine/pricing.ts, zone resolution (F-4). `to_lower` stands for
-- String.prototype.toLowerCase, the language's Unicode table, and is a parameter. A position is a
-- natural number. A matcher is the list of its entries.
pub mod Resolution
use jsyxi_shipping.Prelude.{
  ℕ, Bool, true, false, not, ◌&&◌, Option, none, some, List, [], ◌∷◌, map, Text, text_eq, trim, any,
  all, find, ◌==◌, if◌then◌else◌,
}
use jsyxi_shipping.Prelude.Sort.{sort_by}
use jsyxi_shipping.RateEngine.Freight.{ZoneCode}

pub data MatcherAttribute : Type 0 where
  pincode city district state region is_metro is_special : MatcherAttribute

-- `{ prefix: "p" }` is `prefix` of the list of one.
pub data MatcherPredicate : Type 0 where
  exact : Text → MatcherPredicate
  one_of : List Text → MatcherPredicate
  flag : Bool → MatcherPredicate
  prefix : List Text → MatcherPredicate

abbrev pub ZoneMatcher : Type 0
ZoneMatcher = List (MatcherAttribute × MatcherPredicate)

pub record MasterAttributes : Type 0 where
  pub city : Option Text
  pub district : Option Text
  pub state : Option Text
  pub region : Option Text
  pub is_metro : Option Bool
  pub is_special : Option Bool

pub record PincodeAttributes : Type 0 where
  pub pincode : Text
  pub master : MasterAttributes

pub record ZoneRuleInput : Type 0 where
  pub origin_matcher : ZoneMatcher
  pub destination_matcher : ZoneMatcher
  pub zone : ZoneCode
  pub position : ℕ

pub record Place : Type 0 where
  pub pincode : Text
  pub attributes : Option MasterAttributes

abbrev pub no_attributes : MasterAttributes
no_attributes = record {
  city = none;
  district = none;
  state = none;
  region = none;
  is_metro = none;
  is_special = none;
}

-- `attributes?.city ?? null` and so on: a pincode that the master lacks has no attributes.
unfoldable pub attributes_of : Place → PincodeAttributes
attributes_of place = record {
  pincode = place.pincode;
  master = elim place.attributes [ none ↦ no_attributes | some m ↦ m ];
}

unfoldable pub starts_with : Text → Text → Bool
starts_with s [] = true
starts_with [] (_ ∷ _) = false
starts_with (a ∷ s) (b ∷ p) = a == b && starts_with s p

unfoldable pub bool_eq : Bool → Bool → Bool
bool_eq true b = b
bool_eq false b = not b

abbrev pub text_of : MatcherAttribute → PincodeAttributes → Option Text
text_of pincode a = some a.pincode
text_of city a = a.master.city
text_of district a = a.master.district
text_of state a = a.master.state
text_of _ a = a.master.region

abbrev pub zone_of : Option ZoneRuleInput → Option ZoneCode
zone_of none = none
zone_of (some rule) = some rule.zone

module _ (to_lower : Text → Text) where
  unfoldable pub fold : Text → Text
  fold text = to_lower (trim text)

  -- A flag is compared with the predicate by `===`: only the Boolean predicate can be equal.
  unfoldable pub flag_matches : Option Bool → MatcherPredicate → Bool
  flag_matches none predicate = false
  flag_matches (some actual) (flag b) = bool_eq actual b
  flag_matches (some actual) _ = false

  unfoldable pub text_matches : Option Text → MatcherPredicate → Bool
  text_matches none predicate = false
  text_matches (some raw) (exact v) = text_eq (fold raw) (fold v)
  text_matches (some raw) (one_of vs) = any (λ v. text_eq (fold raw) (fold v)) vs
  text_matches (some raw) (flag b) = false
  text_matches (some raw) (prefix ps) = any (λ p. starts_with (fold raw) (fold p)) ps

  unfoldable pub predicate_matches : MatcherAttribute → MatcherPredicate → PincodeAttributes → Bool
  unfolding flag_matches text_matches
  predicate_matches is_metro predicate attrs = flag_matches attrs.master.is_metro predicate
  predicate_matches is_special predicate attrs = flag_matches attrs.master.is_special predicate
  predicate_matches attribute predicate attrs = text_matches (text_of attribute attrs) predicate

  unfoldable pub matcher_matches : ZoneMatcher → PincodeAttributes → Bool
  matcher_matches matcher attrs = all (λ e. predicate_matches e.0 e.1 attrs) matcher

  abbrev pub rule_matches : Place → Place → ZoneRuleInput → Bool
  rule_matches origin destination rule =
      matcher_matches rule.origin_matcher (attributes_of origin)
      && matcher_matches rule.destination_matcher (attributes_of destination)

  -- The loop over the ordered rules returns at the first that matches.
  unfoldable pub resolve_zone : List ZoneRuleInput → Place → Place → Option ZoneCode
  resolve_zone rules origin destination =
      zone_of
        (find (rule_matches origin destination) (sort_by (λ (r : ZoneRuleInput). r.position) rules))
