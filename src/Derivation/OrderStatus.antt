-- ===== src/Derivation/OrderStatus.antt =====
-- src/modules/order-derivation/order-status.ts: who carries an order's collectible, and the shipping
-- status that an order shows (F-22). The states are the enums of the database, texts in the source.
pub mod Assignment
pub mod Precedence
use jsyxi_shipping.Prelude.{
  Bool, true, false, not, ◌&&◌, ◌||◌, Option, none, some, List, [], ◌∷◌, Text, codes, any, all,
  filter, is_empty, if◌then◌else◌,
}
use jsyxi_shipping.Prelude.Int.{ℤ, pos, leb_ℤ, ltb_ℤ, eq_ℤ}
use jsyxi_shipping.Result.{Result, ok, ◌>>=◌}
use jsyxi_shipping.Money.{Paise, rupees_to_paise}
use jsyxi_shipping.States.{BookingState, MovementState, CustodyState, is_terminal, movement_eq}

pub data CodAssignmentState : Type 0 where
  not_applicable assigned unassigned : CodAssignmentState

pub record ShipmentCodInput : Type 0 where
  pub booking_state : BookingState
  pub awb_normalized : Option Text
  pub collectible : Text

abbrev pub is_void : BookingState → Bool
is_void BookingState.void = true
is_void _ = false

abbrev pub is_some : Option Text → Bool
is_some none = false
is_some (some _) = true

unfoldable pub has_active_awb : ShipmentCodInput → Bool
has_active_awb s = is_some s.awb_normalized && not (is_void s.booking_state)

-- `active.filter((s) => rupeesToPaise(s.collectible) > 0n)`
unfoldable pub carriers_of : List ShipmentCodInput → Result (List ShipmentCodInput)
carriers_of [] = ok []
carriers_of (s ∷ rest) = do
  paise ← rupees_to_paise s.collectible
  carriers ← carriers_of rest
  ok (if ltb_ℤ (pos 0) paise then s ∷ carriers else carriers)

-- The test for the single carrier of the full amount.
unfoldable pub carries_all : List ShipmentCodInput → Paise → Result Bool
carries_all (s ∷ []) outstanding = do
  paise ← rupees_to_paise s.collectible
  ok (eq_ℤ paise outstanding)
carries_all _ outstanding = ok false

abbrev pub or_zero : Option Text → Text
or_zero none = codes "0.00"
or_zero (some t) = t

unfoldable pub derive_cod_assignment_state :
    Option Text → List ShipmentCodInput → Result CodAssignmentState
derive_cod_assignment_state cod_outstanding shipments = do
  outstanding ← rupees_to_paise (or_zero cod_outstanding)
  if leb_ℤ outstanding (pos 0) then ok not_applicable else do
    let active = filter has_active_awb shipments
    carriers ← carriers_of active
    full ← carries_all carriers outstanding
    ok (if full then assigned else if is_empty active then not_applicable else unassigned)

pub data DerivedShippingStatus : Type 0 where
  manual_assignment_needed ndr rto_in_progress booking_failed : DerivedShippingStatus
  not_shipped in_transit out_for_delivery : DerivedShippingStatus
  delivered cancelled partially_delivered : DerivedShippingStatus

-- What an order shows: its own state where it has no shipment.
pub data ShownStatus : Type 0 where
  order_state : Text → ShownStatus
  shipping : DerivedShippingStatus → ShownStatus

pub record ShipmentStatusInput : Type 0 where
  pub booking_state : BookingState
  pub movement_state : MovementState
  pub custody_state : CustodyState

abbrev pub is_manual : ShipmentStatusInput → Bool
is_manual s = elim s.booking_state [ BookingState.needs_manual_assignment ↦ true | _ ↦ false ]

abbrev pub is_failed : ShipmentStatusInput → Bool
is_failed s = elim s.booking_state [ BookingState.failed ↦ true | _ ↦ false ]

abbrev pub is_ndr : ShipmentStatusInput → Bool
is_ndr s = elim s.movement_state [ MovementState.ndr ↦ true | _ ↦ false ]

abbrev pub is_delivered : ShipmentStatusInput → Bool
is_delivered s = elim s.movement_state [ MovementState.delivered ↦ true | _ ↦ false ]

-- `RTO_IN_PROGRESS`
abbrev pub is_rto_in_progress : ShipmentStatusInput → Bool
is_rto_in_progress s = elim s.movement_state [
  | MovementState.rto_initiated ↦ true
  | MovementState.rto_in_transit ↦ true
  | MovementState.rto_out_for_delivery ↦ true
  | _ ↦ false
]

abbrev pub is_custody_cancelled : CustodyState → Bool
is_custody_cancelled CustodyState.cancelled = true
is_custody_cancelled _ = false

abbrev pub is_movement_cancelled : MovementState → Bool
is_movement_cancelled MovementState.cancelled_by_courier = true
is_movement_cancelled _ = false

unfoldable pub is_cancelled : ShipmentStatusInput → Bool
is_cancelled s =
    is_void s.booking_state
    || is_custody_cancelled s.custody_state
    || is_movement_cancelled s.movement_state

-- The in-flight test of one state.
unfoldable pub is_live_at : MovementState → ShipmentStatusInput → Bool
is_live_at state s =
    not (is_cancelled s) && not (is_terminal s.movement_state) && movement_eq s.movement_state state

-- The loop over `IN_FLIGHT_ORDER` and what follows it.
unfoldable pub derive_order_shipping_status : Text → List ShipmentStatusInput → ShownStatus
derive_order_shipping_status state shipments =
    if is_empty shipments
    then order_state state
    else if any is_manual shipments
    then shipping manual_assignment_needed
    else if any is_ndr shipments
    then shipping ndr
    else if any is_rto_in_progress shipments
    then shipping rto_in_progress
    else if any is_failed shipments
    then shipping booking_failed
    else if any (is_live_at MovementState.not_shipped) shipments
    then shipping not_shipped
    else if any (is_live_at MovementState.in_transit) shipments
    then shipping in_transit
    else if any (is_live_at MovementState.out_for_delivery) shipments
    then shipping out_for_delivery
    else if all is_delivered shipments
    then shipping delivered
    else if all is_cancelled shipments
    then shipping cancelled
    else shipping partially_delivered
