-- ===== src/Derivation/Packaging.antt =====
-- src/modules/order-derivation/package-selection.ts: the package profile of a parcel (F-20). A Map is a
-- list of entries in the order of their first insertion. A position is a natural number.
pub mod Ladder
use mathlib.Core.List.{reverse}
use jsyxi_shipping.Prelude.{
  ℕ, ◌*◌, Bool, true, false, not, Option, none, some, List, [], ◌∷◌, Text, text_eq, any, filter,
  find, is_empty, ltb, if◌then◌else◌,
}
use jsyxi_shipping.Prelude.Int.{ℤ, ltb_ℤ}
use jsyxi_shipping.Prelude.Sort.{sort_by}
use jsyxi_shipping.Result.{
  Result, ok, err, invalid_dimension, default_profile_count, of_scaled, ◌>>=◌,
}
use jsyxi_shipping.Derivation.Weight.{kg_to_grams}

pub record PackageProfileInput : Type 0 where
  pub package_profile_id : Text
  pub length_cm : Text
  pub width_cm : Text
  pub height_cm : Text
  pub tare_kg : Text
  pub is_default : Bool

pub record PackageRuleInput : Type 0 where
  pub package_rule_id : Text
  pub position : ℕ
  pub min_dead_kg : Option Text
  pub max_dead_kg : Option Text
  pub min_items : Option ℤ
  pub max_items : Option ℤ
  pub package_profile_id : Text

pub record SkuOverrideProfile : Type 0 where
  pub sku : Text
  pub profile : PackageProfileInput

pub record PackageSelectionInput : Type 0 where
  pub line_skus : List (Option Text)
  pub sku_override_profiles : List SkuOverrideProfile
  pub rules : List PackageRuleInput
  pub profiles : List PackageProfileInput
  pub content_weight_kg : Text
  pub total_items : ℤ

pub data PackageSelectionSource : Type 0 where
  sku_override selection_rule default : PackageSelectionSource

pub record PackageSelectionResult : Type 0 where
  pub profile : PackageProfileInput
  pub source : PackageSelectionSource
  pub matched_rule_id : Option Text
  pub conflict_resolved_by_volume : Bool

unfoldable pub cm_to_hundredths : Text → Result ℕ
cm_to_hundredths value = of_scaled 2 invalid_dimension value

unfoldable pub volume : PackageProfileInput → Result ℕ
volume profile = do
  l ← cm_to_hundredths profile.length_cm
  w ← cm_to_hundredths profile.width_cm
  h ← cm_to_hundredths profile.height_cm
  ok (l * w * h)

unfoldable pub below_min : Option Text → ℕ → Result Bool
below_min none content = ok false
below_min (some kg) content = do grams ← kg_to_grams kg; ok (ltb content grams)

unfoldable pub above_max : Option Text → ℕ → Result Bool
above_max none content = ok false
above_max (some kg) content = do grams ← kg_to_grams kg; ok (ltb grams content)

abbrev pub fewer_items : Option ℤ → ℤ → Bool
fewer_items none items = false
fewer_items (some least) items = ltb_ℤ items least

abbrev pub more_items : Option ℤ → ℤ → Bool
more_items none items = false
more_items (some most) items = ltb_ℤ most items

unfoldable pub rule_matches : PackageRuleInput → ℕ → ℤ → Result Bool
rule_matches rule content_grams total_items = do
  light ← below_min rule.min_dead_kg content_grams
  if light then ok false else do
    heavy ← above_max rule.max_dead_kg content_grams
    ok (
        if heavy
        then false
        else if fewer_items rule.min_items total_items
        then false
        else not (more_items rule.max_items total_items))

-- The set of SKUs leaves out null and ''.
abbrev pub is_sku : Text → Option Text → Bool
is_sku sku none = false
is_sku sku (some s) = if is_empty s then false else text_eq s sku

abbrev pub hits_of : PackageSelectionInput → List SkuOverrideProfile
hits_of input =
    filter (λ (o : SkuOverrideProfile). any (is_sku o.sku) input.line_skus)
      input.sku_override_profiles

-- Map.prototype.set: a later profile of one id takes the place of the earlier one.
unfoldable pub set_profile :
    List PackageProfileInput → PackageProfileInput → List PackageProfileInput
set_profile [] p = p ∷ []
set_profile (q ∷ qs) p =
    let rest = set_profile qs p in
    if text_eq q.package_profile_id p.package_profile_id then p ∷ qs else q ∷ rest

unfoldable pub distinct_from :
    List PackageProfileInput → List SkuOverrideProfile → List PackageProfileInput
distinct_from seen [] = seen
distinct_from seen (hit ∷ hits) = distinct_from (set_profile seen hit.profile) hits

-- The loop over the distinct profiles, behind its first round.
unfoldable pub largest : PackageProfileInput → List PackageProfileInput → Result PackageProfileInput
largest winner [] = ok winner
largest winner (p ∷ ps) = do
  v ← volume p
  best ← volume winner
  largest (if ltb best v then p else winner) ps

-- `new Map(profiles…).get(id)`: the last profile of that id.
unfoldable pub by_id : List PackageProfileInput → Text → Option PackageProfileInput
by_id profiles id =
    find (λ (p : PackageProfileInput). text_eq p.package_profile_id id) (reverse profiles)

-- One round of the loop over the rules, before the rounds that follow.
unfoldable pub take_rule :
    Bool
    → Option PackageProfileInput
    → PackageRuleInput
    → Result (Option (PackageRuleInput × PackageProfileInput))
    → Result (Option (PackageRuleInput × PackageProfileInput))
take_rule false target rule rest = rest
take_rule true none rule rest = rest
take_rule true (some profile) rule rest = ok (some (rule, profile))

unfoldable pub first_rule :
    List PackageProfileInput
    → ℕ
    → ℤ
    → List PackageRuleInput
    → Result (Option (PackageRuleInput × PackageProfileInput))
first_rule profiles grams items [] = ok none
first_rule profiles grams items (rule ∷ rules) = do
  let rest = first_rule profiles grams items rules
  matches ← rule_matches rule grams items
  take_rule matches (by_id profiles rule.package_profile_id) rule rest

-- Rung 3, on the profiles that are marked as default.
unfoldable pub select_default : List PackageProfileInput → Result PackageSelectionResult
select_default (p ∷ []) = ok (record {
  profile = p;
  source = default;
  matched_rule_id = none;
  conflict_resolved_by_volume = false;
})
select_default _ = err default_profile_count

abbrev pub defaults_of : PackageSelectionInput → List PackageProfileInput
defaults_of input = filter (λ (p : PackageProfileInput). p.is_default) input.profiles

unfoldable pub select_ruled :
    PackageSelectionInput
    → Option (PackageRuleInput × PackageProfileInput)
    → Result PackageSelectionResult
select_ruled input none = select_default (defaults_of input)
select_ruled input (some (rule, profile)) = ok (record {
  profile = profile;
  source = selection_rule;
  matched_rule_id = some rule.package_rule_id;
  conflict_resolved_by_volume = false;
})

abbrev pub sorted_rules : PackageSelectionInput → List PackageRuleInput
sorted_rules input = sort_by (λ (r : PackageRuleInput). r.position) input.rules

unfoldable pub select_distinct :
    PackageSelectionInput → List PackageProfileInput → Result PackageSelectionResult
select_distinct input (p ∷ ps) = do
  winner ← largest p ps
  ok (record {
    profile = winner;
    source = sku_override;
    matched_rule_id = none;
    conflict_resolved_by_volume = not (is_empty ps);
  })
select_distinct input [] = do
  grams ← kg_to_grams input.content_weight_kg
  found ← first_rule input.profiles grams input.total_items (sorted_rules input)
  select_ruled input found

unfoldable pub select_package_profile : PackageSelectionInput → Result PackageSelectionResult
select_package_profile input = select_distinct input (distinct_from [] (hits_of input))
