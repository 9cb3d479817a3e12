-- ===== src/Examples/Orders.antt =====
-- What is derived from concrete orders, and the plan of an order's allocations.
use mathlib.Core.List.{Perm}
use jsyxi_shipping.Prelude.{
  ◌≡◌, refl, Bool, true, false, none, some, Option, List, [], ◌∷◌, codes, Text, text_eq, trim,
  is_space, decimal_groups, digits_value, filter,
}
use jsyxi_shipping.Prelude.Int.{pos}
use jsyxi_shipping.Prelude.Sort.{sort_by}
use jsyxi_shipping.Prelude.Decimal.{scaled}
use jsyxi_shipping.Result.{ok, of_scaled}
use jsyxi_shipping.States.{BookingState, MovementState, CustodyState, movement_eq}
use jsyxi_shipping.Money.{Paise, rupees_to_paise}
use jsyxi_shipping.Derivation.Weight.{kg_to_grams}
use jsyxi_shipping.Derivation.Payment.{PaymentModeInput, PaymentMode, derive_payment_mode}
use jsyxi_shipping.Derivation.Payment.Modes.{ModeRule, derive_payment_mode-ModeRule}
use jsyxi_shipping.Derivation.OrderStatus.{
  ShipmentCodInput, ShipmentStatusInput, assigned, shipping, DerivedShippingStatus,
  derive_cod_assignment_state, derive_order_shipping_status, has_active_awb, or_zero, carriers_of,
  carries_all, is_live_at, is_cancelled,
}
use jsyxi_shipping.Derivation.OrderStatus.Precedence.{Says, derive_order_shipping_status-Says}
use jsyxi_shipping.Derivation.OrderStatus.Assignment.{
  AssignmentRule, derive_cod_assignment_state-AssignmentRule,
}
use jsyxi_shipping.Derivation.Eligibility.{
  EligibilityInput, evaluate_eligibility, has_weight, has_collectible, unless, positive_dimension,
}
use jsyxi_shipping.Derivation.Eligibility.Ready.{Bookable, evaluate_eligibility-Bookable}
use jsyxi_shipping.Derivation.Packaging.{
  PackageProfileInput, PackageSelectionInput, PackageSelectionResult, selection_rule, rule_matches,
  below_min, above_max, distinct_from, set_profile, by_id, take_rule, first_rule, select_ruled,
  select_distinct, select_package_profile,
}
use jsyxi_shipping.Derivation.Packaging.Ladder.{FromRung, select_package_profile-FromRung}
use jsyxi_shipping.OrderSync.Allocation.{FulfillmentOrderInfo, gids_of, build_allocation_plan}
use jsyxi_shipping.OrderSync.Allocation.Coverage.{sources, build_allocation_plan-perm}

abbrev cod_order : PaymentModeInput
cod_order = record {
  gateway_names = codes "Cash on Delivery (COD)" ∷ [];
  cod_gateway_map = codes "cod" ∷ codes "Cash on Delivery (COD)" ∷ [];
  cod_outstanding = some (codes "999.00");
}

cod_order_mode : derive_payment_mode cod_order ≡ ok PaymentMode.cod
unfolding derive_payment_mode rupees_to_paise trim is_space decimal_groups text_eq digits_value
cod_order_mode = refl

derive_payment_mode-ModeRule_example : ModeRule cod_order PaymentMode.cod
derive_payment_mode-ModeRule_example =
    derive_payment_mode-ModeRule cod_order PaymentMode.cod cod_order_mode

abbrev parcels : List ShipmentCodInput
parcels =
    record {
      booking_state = BookingState.confirmed;
      awb_normalized = some (codes "AWB1");
      collectible = codes "999.00";
    }
    ∷ record {
      booking_state = BookingState.void;
      awb_normalized = some (codes "AWB2");
      collectible = codes "999.00";
    }
    ∷ record {
      booking_state = BookingState.confirmed;
      awb_normalized = some (codes "AWB3");
      collectible = codes "0.00";
    }
    ∷ []

parcels_assigned : derive_cod_assignment_state (some (codes "999.00")) parcels ≡ ok assigned
unfolding derive_cod_assignment_state has_active_awb carriers_of carries_all rupees_to_paise trim
    is_space decimal_groups text_eq digits_value
parcels_assigned = refl

derive_cod_assignment_state-AssignmentRule_example :
    (outstanding : Paise) × (rupees_to_paise (or_zero (some (codes "999.00"))) ≡ ok outstanding)
    × AssignmentRule outstanding (filter has_active_awb parcels) assigned
derive_cod_assignment_state-AssignmentRule_example =
    derive_cod_assignment_state-AssignmentRule (some (codes "999.00")) parcels assigned
      parcels_assigned

abbrev shipments : List ShipmentStatusInput
shipments =
    record {
      booking_state = BookingState.confirmed;
      movement_state = MovementState.out_for_delivery;
      custody_state = CustodyState.in_custody;
    }
    ∷ record {
      booking_state = BookingState.void;
      movement_state = MovementState.not_shipped;
      custody_state = CustodyState.not_applicable;
    }
    ∷ record {
      booking_state = BookingState.confirmed;
      movement_state = MovementState.in_transit;
      custody_state = CustodyState.in_custody;
    }
    ∷ []

derive_order_shipping_status-Says_example :
    Says shipments (derive_order_shipping_status (codes "READY") shipments)
derive_order_shipping_status-Says_example =
    derive_order_shipping_status-Says (codes "READY") shipments

test_derive_order_shipping_status :
    derive_order_shipping_status (codes "READY") shipments
    ≡ shipping DerivedShippingStatus.in_transit
unfolding derive_order_shipping_status is_live_at is_cancelled movement_eq
test_derive_order_shipping_status = refl

abbrev complete_order : EligibilityInput
complete_order = record {
  recipient = some (record {
    name = some (codes "Asha");
    address_lines = codes " " ∷ codes "12 MG Road" ∷ [];
    pincode = some (codes "560001");
    phone = some (codes "+91 98450-12345");
  });
  allocated_line_count = pos 1;
  dead_weight_kg = some (codes "0.530");
  dimensions_cm =
      some (record { length_cm = codes "20.00"; width_cm = codes "15"; height_cm = codes "0.50" });
  pickup_location_id = some (codes "L1");
  payment_mode = PaymentMode.prepaid;
  collectible = some (codes "0.00");
}

complete_order_ready :
    evaluate_eligibility complete_order ≡ ok (record { ready = true; failures = [] })
unfolding evaluate_eligibility has_weight has_collectible unless positive_dimension kg_to_grams
    of_scaled scaled rupees_to_paise trim is_space decimal_groups text_eq digits_value
complete_order_ready = refl

evaluate_eligibility-Bookable_example : Bookable complete_order
evaluate_eligibility-Bookable_example =
    evaluate_eligibility-Bookable complete_order (record { ready = true; failures = [] })
      complete_order_ready refl

abbrev from_first : Option Text → Bool
from_first none = false
from_first (some location) = text_eq location (codes "L1")

abbrev fulfillment_orders : List FulfillmentOrderInfo
fulfillment_orders =
    record {
      gid = codes "F1";
      status = codes "OPEN";
      location_gid = some (codes "L1");
      location_name = none;
    }
    ∷ record {
      gid = codes "F2";
      status = codes "CANCELLED";
      location_gid = some (codes "L1");
      location_name = none;
    }
    ∷ record {
      gid = codes "F3";
      status = codes "SCHEDULED";
      location_gid = some (codes "L1");
      location_name = none;
    }
    ∷ record {
      gid = codes "F4";
      status = codes "OPEN";
      location_gid = some (codes "L2");
      location_name = none;
    }
    ∷ []

build_allocation_plan-perm_example :
    Perm
      (sources (build_allocation_plan from_first fulfillment_orders true))
      (gids_of fulfillment_orders)
build_allocation_plan-perm_example = build_allocation_plan-perm from_first fulfillment_orders true

abbrev small_box : PackageProfileInput
small_box = record {
  package_profile_id = codes "P1";
  length_cm = codes "10.00";
  width_cm = codes "10.00";
  height_cm = codes "5.00";
  tare_kg = codes "0.050";
  is_default = true;
}

abbrev big_box : PackageProfileInput
big_box = record {
  package_profile_id = codes "P2";
  length_cm = codes "40.00";
  width_cm = codes "30.00";
  height_cm = codes "20.00";
  tare_kg = codes "0.300";
  is_default = false;
}

-- The rule of position 1 needs five items; that of position 2 takes anything over 1 kg.
abbrev heavy_parcel : PackageSelectionInput
heavy_parcel = record {
  line_skus = some (codes "MUG") ∷ none ∷ [];
  sku_override_profiles = record { sku = codes "VASE"; profile = big_box } ∷ [];
  rules =
      record {
        package_rule_id = codes "R2";
        position = 2;
        min_dead_kg = some (codes "1.000");
        max_dead_kg = none;
        min_items = none;
        max_items = none;
        package_profile_id = codes "P2";
      }
      ∷ record {
        package_rule_id = codes "R1";
        position = 1;
        min_dead_kg = none;
        max_dead_kg = none;
        min_items = some (pos 5);
        max_items = none;
        package_profile_id = codes "P1";
      }
      ∷ [];
  profiles = small_box ∷ big_box ∷ [];
  content_weight_kg = codes "1.200";
  total_items = pos 3;
}

abbrev heavy_parcel_box : PackageSelectionResult
heavy_parcel_box = record {
  profile = big_box;
  source = selection_rule;
  matched_rule_id = some (codes "R2");
  conflict_resolved_by_volume = false;
}

heavy_parcel_selects : select_package_profile heavy_parcel ≡ ok heavy_parcel_box
unfolding select_package_profile select_distinct select_ruled distinct_from set_profile first_rule
    take_rule by_id rule_matches below_min above_max sort_by kg_to_grams of_scaled scaled trim
    is_space decimal_groups text_eq digits_value
heavy_parcel_selects = refl

select_package_profile-FromRung_example : FromRung heavy_parcel heavy_parcel_box selection_rule
select_package_profile-FromRung_example =
    select_package_profile-FromRung heavy_parcel heavy_parcel_box heavy_parcel_selects
