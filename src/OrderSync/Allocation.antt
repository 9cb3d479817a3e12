-- ===== src/OrderSync/Allocation.antt =====
-- src/modules/order-sync/allocation-plan.ts: the planning half of location consolidation.
pub mod Coverage
use jsyxi_shipping.Prelude.{
  Bool, true, false, not, Option, none, some, List, [], ◌∷◌, ◌++◌, map, Text, codes, text_eq, any,
  is_empty, if◌then◌else◌,
}

pub data AllocationExclusionReason : Type 0 where
  externally_fulfilled location_not_shipped_via_jsyxi : AllocationExclusionReason
  fulfillment_order_cancelled : AllocationExclusionReason

pub record FulfillmentOrderInfo : Type 0 where
  pub gid : Text
  pub status : Text
  pub location_gid : Option Text
  pub location_name : Option Text

pub data AllocationState : Type 0 where
  open_ excluded : AllocationState

pub data MergePath : Type 0 where
  consolidated fallback_per_fulfillment_order : MergePath

pub record AllocationPlanItem : Type 0 where
  pub state : AllocationState
  pub source_fulfillment_order_gids : List Text
  pub shopify_location_gid : Option Text
  pub exclusion_reason : Option AllocationExclusionReason
  pub merge_path : Option MergePath

-- IN_HOUSE_STATUSES, CANCELLED_STATUSES
abbrev pub is_in_house : Text → Bool
is_in_house status = any (text_eq status) (codes "OPEN" ∷ codes "SCHEDULED" ∷ codes "ON_HOLD" ∷ [])

abbrev pub is_cancelled_status : Text → Bool
is_cancelled_status status = any (text_eq status) (codes "CANCELLED" ∷ codes "INCOMPLETE" ∷ [])

abbrev pub exclude : FulfillmentOrderInfo → AllocationExclusionReason → AllocationPlanItem
exclude fo reason = record {
  state = excluded;
  source_fulfillment_order_gids = fo.gid ∷ [];
  shopify_location_gid = fo.location_gid;
  exclusion_reason = some reason;
  merge_path = none;
}

abbrev pub open_item : List Text → Option Text → MergePath → AllocationPlanItem
open_item gids location path = record {
  state = open_;
  source_fulfillment_order_gids = gids;
  shopify_location_gid = location;
  exclusion_reason = none;
  merge_path = some path;
}

-- `inHouse[0]?.locationGid ?? null`
abbrev pub first_location : List FulfillmentOrderInfo → Option Text
first_location [] = none
first_location (fo ∷ _) = fo.location_gid

abbrev pub gids_of : List FulfillmentOrderInfo → List Text
gids_of fos = map (λ (fo : FulfillmentOrderInfo). fo.gid) fos

module _ (ships_via_jsyxi : Option Text → Bool) where
  -- The loop: the excluded items, and the orders in house.
  unfoldable pub sort_out :
      List FulfillmentOrderInfo → List AllocationPlanItem × List FulfillmentOrderInfo
  sort_out [] = ([], [])
  sort_out (fo ∷ rest) =
      let (plan, in_house) = sort_out rest in
      if is_in_house fo.status
      then (if not (ships_via_jsyxi fo.location_gid)
          then (exclude fo location_not_shipped_via_jsyxi ∷ plan, in_house)
          else (plan, fo ∷ in_house))
      else (
        exclude fo (
              if is_cancelled_status fo.status
              then fulfillment_order_cancelled
              else externally_fulfilled)
            ∷ plan,
        in_house,
      )

  -- The open items: one for all orders in house, or one for each.
  unfoldable pub open_items : Bool → List FulfillmentOrderInfo → List AllocationPlanItem
  open_items true [] = []
  open_items true (fo ∷ rest) =
      open_item (gids_of (fo ∷ rest)) (first_location (fo ∷ rest)) consolidated ∷ []
  open_items false in_house =
      map
        (λ (fo : FulfillmentOrderInfo).
          open_item (fo.gid ∷ []) fo.location_gid fallback_per_fulfillment_order)
        in_house

  -- An order that has no fulfillment order yet still gets one allocation.
  unfoldable pub or_default : List AllocationPlanItem → List AllocationPlanItem
  or_default [] = open_item [] none consolidated ∷ []
  or_default (item ∷ plan) = item ∷ plan

  unfoldable pub build_allocation_plan : List FulfillmentOrderInfo → Bool → List AllocationPlanItem
  build_allocation_plan fulfillment_orders can_merge =
      let (plan, in_house) = sort_out fulfillment_orders in
      or_default (plan ++ open_items can_merge in_house)
