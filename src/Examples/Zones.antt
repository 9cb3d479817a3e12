-- ===== src/Examples/Zones.antt =====
-- Zone rules, with a lower case for ASCII letters.
use jsyxi_shipping.Prelude.{
  ◌+◌, ◌≡◌, refl, true, ◌&&◌, none, some, List, [], ◌∷◌, map, codes, Text, All, leb, if◌then◌else◌,
  text_eq, trim, is_space,
}
use jsyxi_shipping.Prelude.Sort.{sort_by}
use jsyxi_shipping.RateEngine.Freight.{zone_b, zone_e}
use jsyxi_shipping.RateEngine.Zone.{
  ZoneMatcher, ZoneRuleInput, Place, exact, prefix, flag, pincode, state, is_metro, resolve_zone,
  matcher_matches, attributes_of, predicate_matches, fold, starts_with, bool_eq,
}
use jsyxi_shipping.RateEngine.Zone.Resolution.{Resolved, resolve_zone-Resolved, unlisted-matches}

abbrev ascii_lower : Text → Text
ascii_lower t = map (λ c. if leb b'A' c && leb c b'Z' then c + 32 else c) t

abbrev mumbai : Place
mumbai = record {
  pincode = codes "400001";
  attributes = some (record {
    city = some (codes "Mumbai");
    district = none;
    state = some (codes "Maharashtra");
    region = none;
    is_metro = some true;
    is_special = none;
  });
}

abbrev unlisted : Place
unlisted = record { pincode = codes "110001"; attributes = none }

abbrev delhi_prefix : ZoneMatcher
delhi_prefix = (pincode, prefix (codes "11" ∷ [])) ∷ []

-- The catch-all stands first in the list, with the greatest position.
abbrev rules : List ZoneRuleInput
rules =
    record { origin_matcher = []; destination_matcher = []; zone = zone_e; position = 9 }
    ∷ record {
      origin_matcher = (state, exact (codes " MAHARASHTRA")) ∷ (is_metro, flag true) ∷ [];
      destination_matcher = delhi_prefix;
      zone = zone_b;
      position = 2;
    }
    ∷ []

resolve_zone-Resolved_example :
    Resolved ascii_lower rules mumbai unlisted (resolve_zone ascii_lower rules mumbai unlisted)
resolve_zone-Resolved_example = resolve_zone-Resolved ascii_lower rules mumbai unlisted

test_resolve_zone : resolve_zone ascii_lower rules mumbai unlisted ≡ some zone_b
unfolding resolve_zone sort_by matcher_matches predicate_matches attributes_of fold trim is_space
    text_eq starts_with bool_eq
test_resolve_zone = refl

unlisted_matches : matcher_matches ascii_lower delhi_prefix (attributes_of unlisted) ≡ true
unfolding matcher_matches predicate_matches attributes_of fold trim is_space starts_with
unlisted_matches = refl

unlisted-matches_example : All (λ e. e.0 ≡ pincode) delhi_prefix
unlisted-matches_example = unlisted-matches ascii_lower delhi_prefix unlisted refl unlisted_matches
