-- ===== src/Examples/Movement.antt =====
-- The reducer on concrete shipments and concrete other writers.
use jsyxi_shipping.Prelude.{
  ℕ, ◌+◌, ◌≡◌, ◌≢◌, refl, inl, inr, Bool, Bool-cases, arith, true, false, not, ◌&&◌, none, some,
  All, ◌==◌, if◌then◌else◌,
}
use jsyxi_shipping.States.{
  CarrierEventStatus, MovementState, CustodyState, movement_eq, is_terminal,
}
use jsyxi_shipping.Tracking.Reducer.{
  Shipment, event_to_movement, decide_transition, apply_event, flag_review, is_absent,
  awaits_pickup, is_cancel_requested,
}
use jsyxi_shipping.Tracking.Reducer.Terminal.{decide_transition_changes, decide_transition_custody}
use jsyxi_shipping.Tracking.Reducer.Concurrency.{written, apply_event-conflict}
use jsyxi_shipping.Tracking.Reducer.Races.{
  Answers, CountVersions, KeepTerminal, LeavesOrWrites, TakesEffect, apply_event-TakesEffect,
  apply_event-first_attempt,
}

abbrev delivered_shipment : Shipment
delivered_shipment = record {
  movement_state = MovementState.delivered;
  custody_state = CustodyState.in_custody;
  delivered_at = some 100;
  version = 7;
}

abbrev waiting_shipment : Shipment
waiting_shipment = record {
  movement_state = MovementState.not_shipped;
  custody_state = CustodyState.cancel_requested;
  delivered_at = none;
  version = 3;
}

-- A writer that touches the row, and leaves its movement, at every attempt.
abbrev touching : ℕ → Shipment → Shipment
touching k row = record row { version = row.version + 1 }

-- A writer that touches the row before the second attempt only.
abbrev touching_later : ℕ → Shipment → Shipment
touching_later k row = if k == 3 then record row { version = row.version + 1 } else row

delivers : (decide_transition waiting_shipment CarrierEventStatus.delivered).movement_changes ≡ true
unfolding decide_transition event_to_movement movement_eq
delivers = refl

decide_transition_changes_example :
    let d = decide_transition waiting_shipment CarrierEventStatus.delivered in
    (is_terminal waiting_shipment.movement_state ≡ false)
    × (d.target_movement ≡ event_to_movement CarrierEventStatus.delivered)
    × (event_to_movement CarrierEventStatus.delivered ≢ waiting_shipment.movement_state)
    × (d.set_delivered_at ≡ (
        movement_eq (event_to_movement CarrierEventStatus.delivered) MovementState.delivered
        && is_absent waiting_shipment.delivered_at))
decide_transition_changes_example =
    decide_transition_changes waiting_shipment CarrierEventStatus.delivered delivers

picks_up :
    (decide_transition waiting_shipment CarrierEventStatus.picked_up).custody_target
    ≡ some CustodyState.in_custody
unfolding decide_transition event_to_movement movement_eq
picks_up = refl

decide_transition_custody_example :
    (CustodyState.in_custody ≡ CustodyState.in_custody)
    × (CarrierEventStatus.picked_up ≡ CarrierEventStatus.picked_up)
    × (awaits_pickup waiting_shipment.custody_state ≡ true)
    × ((decide_transition waiting_shipment CarrierEventStatus.picked_up).review_flag
        ≡ is_cancel_requested waiting_shipment.custody_state)
decide_transition_custody_example =
    decide_transition_custody waiting_shipment CarrierEventStatus.picked_up CustodyState.in_custody
      picks_up

abbrev moving_shipment : Shipment
moving_shipment = record {
  movement_state = MovementState.in_transit;
  custody_state = CustodyState.in_custody;
  delivered_at = none;
  version = 3;
}

-- A writer that delivers the shipment between the first read and the update.
abbrev waits_then_delivers : ℕ → Shipment → Shipment
waits_then_delivers k row =
    if k == 4 && not (is_terminal row.movement_state)
    then record row { movement_state = MovementState.delivered; version = row.version + 1 }
    else row

waits_then_delivers-CountVersions : CountVersions waits_then_delivers
waits_then_delivers-CountVersions k row =
    elim (Bool-cases (k == 4 && not (is_terminal row.movement_state))) [
      | inl now ↦ rw now (inr (omega arith))
      | inr later ↦ rw later (inl refl)
    ]

waits_then_delivers-KeepTerminal : KeepTerminal waits_then_delivers
waits_then_delivers-KeepTerminal k row h = rw (h, and_false (k == 4)) refl
  where
    and_false : (a : Bool) → (a && false) ≡ false
    and_false a = ground arith

apply_event-TakesEffect_example :
    TakesEffect waits_then_delivers CarrierEventStatus.out_for_delivery 200 5 moving_shipment
      (apply_event waits_then_delivers CarrierEventStatus.out_for_delivery 200
        moving_shipment).shipment
apply_event-TakesEffect_example =
    apply_event-TakesEffect waits_then_delivers CarrierEventStatus.out_for_delivery 200
      waits_then_delivers-CountVersions waits_then_delivers-KeepTerminal moving_shipment

gives_up : (apply_event touching CarrierEventStatus.in_transit 200 waiting_shipment).outcome ≡ none
unfolding apply_event decide_transition event_to_movement movement_eq
gives_up = refl

apply_event-conflict_example :
    ((apply_event touching CarrierEventStatus.in_transit 200 waiting_shipment).shipment
      ≡ written touching CarrierEventStatus.in_transit 200 5 waiting_shipment)
    × All
        (λ e. e ≡ flag_review)
        (apply_event touching CarrierEventStatus.in_transit 200 waiting_shipment).effects
apply_event-conflict_example =
    apply_event-conflict touching CarrierEventStatus.in_transit 200 waiting_shipment gives_up

apply_event-first_attempt_example :
    LeavesOrWrites touching_later CarrierEventStatus.picked_up 200 waiting_shipment
      (apply_event touching_later CarrierEventStatus.picked_up 200 waiting_shipment).shipment
    × Answers touching_later CarrierEventStatus.picked_up 200 waiting_shipment
        (apply_event touching_later CarrierEventStatus.picked_up 200 waiting_shipment)
apply_event-first_attempt_example =
    apply_event-first_attempt touching_later CarrierEventStatus.picked_up 200 waiting_shipment refl
