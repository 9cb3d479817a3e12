-- ===== src/States.antt =====
-- The shipment's state enums (src/modules/tracking/tracking.types.ts and
-- src/modules/booking/booking.types.ts), with the tests that the code makes on them.
use mathlib.Core.Logic.{◌↔◌}
use jsyxi_shipping.Prelude.{◌≡◌, refl, Bool, true, false}

pub data CarrierEventStatus : Type 0 where
  pickup_scheduled picked_up in_transit out_for_delivery delivered : CarrierEventStatus
  undelivered_attempt rto_initiated rto_in_transit rto_out_for_delivery : CarrierEventStatus
  rto_delivered lost_or_damaged cancelled_by_courier : CarrierEventStatus

pub data MovementState : Type 0 where
  not_shipped in_transit out_for_delivery ndr delivered : MovementState
  rto_initiated rto_in_transit rto_out_for_delivery rto_delivered : MovementState
  lost_or_damaged cancelled_by_courier : MovementState

pub data CustodyState : Type 0 where
  not_applicable pickup_pending pickup_scheduled in_custody : CustodyState
  cancel_requested cancelled cancel_rejected : CustodyState

pub data BookingState : Type 0 where
  draft needs_manual_assignment queued submitted confirmed failed : BookingState
  outcome_unknown void : BookingState

pub MovementState-discrete : Discrete MovementState
MovementState-discrete = hlevel

abbrev is_yes {ℓ} : {A : Type ℓ} → Dec A → Bool
is_yes (yes _) = true
is_yes (no _) = false

-- `a === b`
unfoldable pub movement_eq : MovementState → MovementState → Bool
unfolding MovementState-discrete
movement_eq a b = is_yes (MovementState-discrete a b)

pub movement_eq_iff : (a b : MovementState) → (movement_eq a b ≡ true) ↔ (a ≡ b)
unfolding movement_eq
movement_eq_iff a b = from_dec (MovementState-discrete a b)
  where
    from_dec : {A : Type 0} (d : Dec A) → (is_yes d ≡ true) ↔ A
    from_dec (yes p) = ((λ _. p), (λ _. refl))
    from_dec (no n) = ((λ h. cc), (λ p. absurd (n p)))

-- `TERMINAL_MOVEMENT` and `TERMINAL_MOVEMENT_STATES`
abbrev pub is_terminal : MovementState → Bool
is_terminal MovementState.delivered = true
is_terminal MovementState.rto_delivered = true
is_terminal MovementState.lost_or_damaged = true
is_terminal MovementState.cancelled_by_courier = true
is_terminal _ = false
