-- ===== src/Tracking/Reducer.antt =====
-- src/modules/tracking/movement-reducer.service.ts: the only writer of a shipment's movement state. An
-- instant is a natural number. Other writers act between a read and the conditional update: they
-- are a function `others` of the attempt and the row. What the service sends out is a list of effects,
-- with every optional collaborator present.
pub mod Terminal
pub mod Concurrency
pub mod Races
use jsyxi_shipping.Prelude.{
  ℕ, zero, suc, ◌+◌, Bool, true, false, not, ◌&&◌, ◌||◌, Option, none, some, List, [], ◌∷◌, ◌++◌,
  ◌==◌, if◌then◌else◌,
}
use jsyxi_shipping.States.{
  CarrierEventStatus, MovementState, CustodyState, is_terminal, movement_eq,
}

-- EVENT_TO_MOVEMENT
unfoldable pub event_to_movement : CarrierEventStatus → MovementState
event_to_movement CarrierEventStatus.pickup_scheduled = MovementState.in_transit
event_to_movement CarrierEventStatus.picked_up = MovementState.in_transit
event_to_movement CarrierEventStatus.in_transit = MovementState.in_transit
event_to_movement CarrierEventStatus.out_for_delivery = MovementState.out_for_delivery
event_to_movement CarrierEventStatus.undelivered_attempt = MovementState.ndr
event_to_movement CarrierEventStatus.delivered = MovementState.delivered
event_to_movement CarrierEventStatus.rto_initiated = MovementState.rto_initiated
event_to_movement CarrierEventStatus.rto_in_transit = MovementState.rto_in_transit
event_to_movement CarrierEventStatus.rto_out_for_delivery = MovementState.rto_out_for_delivery
event_to_movement CarrierEventStatus.rto_delivered = MovementState.rto_delivered
event_to_movement CarrierEventStatus.lost_or_damaged = MovementState.lost_or_damaged
event_to_movement CarrierEventStatus.cancelled_by_courier = MovementState.cancelled_by_courier

abbrev pub max_version_retries : ℕ
max_version_retries = 5

pub record Shipment : Type 0 where
  pub movement_state : MovementState
  pub custody_state : CustodyState
  pub delivered_at : Option ℕ
  pub version : ℕ

pub record ReducerDecision : Type 0 where
  pub target_movement : MovementState
  pub movement_changes : Bool
  pub custody_target : Option CustodyState
  pub review_flag : Bool
  pub set_delivered_at : Bool

abbrev pub is_picked_up : CarrierEventStatus → Bool
is_picked_up CarrierEventStatus.picked_up = true
is_picked_up _ = false

abbrev pub awaits_pickup : CustodyState → Bool
awaits_pickup CustodyState.pickup_pending = true
awaits_pickup CustodyState.pickup_scheduled = true
awaits_pickup CustodyState.cancel_requested = true
awaits_pickup _ = false

abbrev pub is_cancel_requested : CustodyState → Bool
is_cancel_requested CustodyState.cancel_requested = true
is_cancel_requested _ = false

abbrev pub is_absent : Option ℕ → Bool
is_absent none = true
is_absent (some _) = false

unfoldable pub decide_transition : Shipment → CarrierEventStatus → ReducerDecision
decide_transition current status =
    let target = event_to_movement status in
    let takes_custody = is_picked_up status && awaits_pickup current.custody_state in
    let custody_race = takes_custody && is_cancel_requested current.custody_state in
    let same = movement_eq target current.movement_state in
    if is_terminal current.movement_state && not same
    then record {
      target_movement = target;
      movement_changes = false;
      custody_target = none;
      review_flag = true;
      set_delivered_at = false;
    }
    else record {
      target_movement = target;
      movement_changes = not same;
      custody_target = if takes_custody then some CustodyState.in_custody else none;
      review_flag = custody_race;
      set_delivered_at =
          not same && movement_eq target MovementState.delivered && is_absent current.delivered_at;
    }

pub data Effect : Type 0 where
  flag_review : Effect
  enqueue_fulfillment_event : CarrierEventStatus → Effect
  on_delivered on_ndr on_rto_initiated on_terminal_movement : Effect
  notify_delivered notify_undelivered_attempt notify_out_for_delivery : Effect
  notify_rto_initiated : Effect

-- The seams and messages that follow a change of movement.
unfoldable pub movement_effects : MovementState → List Effect
movement_effects MovementState.delivered = on_delivered ∷ notify_delivered ∷ []
movement_effects MovementState.ndr = on_ndr ∷ notify_undelivered_attempt ∷ []
movement_effects MovementState.out_for_delivery = notify_out_for_delivery ∷ []
movement_effects MovementState.rto_initiated = notify_rto_initiated ∷ on_rto_initiated ∷ []
movement_effects MovementState.rto_delivered = on_terminal_movement ∷ []
movement_effects MovementState.lost_or_damaged = on_terminal_movement ∷ []
movement_effects MovementState.cancelled_by_courier = on_terminal_movement ∷ []
movement_effects _ = []

-- `COALESCE($4, custody_state)`
abbrev pub coalesce : Option CustodyState → CustodyState → CustodyState
coalesce none old = old
coalesce (some new) old = new

-- The UPDATE statement, on the row that it finds.
unfoldable pub updated : ReducerDecision → ℕ → Shipment → Shipment
updated d occurred_at row = record {
  movement_state = d.target_movement;
  custody_state = coalesce d.custody_target row.custody_state;
  delivered_at = if d.set_delivered_at then some occurred_at else row.delivered_at;
  version = row.version + 1;
}

pub record ReducerOutcome : Type 0 where
  pub state_changed : Bool
  pub movement_state : MovementState
  pub review_flag : Bool

-- The row and the effects so far; no outcome is the ConflictException.
pub record Applied : Type 0 where
  pub shipment : Shipment
  pub effects : List Effect
  pub outcome : Option ReducerOutcome

abbrev pub is_undelivered_attempt : CarrierEventStatus → Bool
is_undelivered_attempt CarrierEventStatus.undelivered_attempt = true
is_undelivered_attempt _ = false

abbrev pub is_none : Option CustodyState → Bool
is_none none = true
is_none (some _) = false

abbrev pub review_effects : ReducerDecision → List Effect
review_effects d = if d.review_flag then flag_review ∷ [] else []

-- Nothing moves: a repeated failed attempt still drives the NDR machine.
unfoldable pub applied_unchanged :
    CarrierEventStatus → Shipment → ReducerDecision → List Effect → Applied
applied_unchanged status row d sent = record {
  shipment = row;
  effects =
      sent
      ++ (if is_undelivered_attempt status && movement_eq row.movement_state MovementState.ndr
          then on_ndr ∷ notify_undelivered_attempt ∷ []
          else []);
  outcome = some (record {
    state_changed = false;
    movement_state = row.movement_state;
    review_flag = d.review_flag;
  });
}

-- The update found the version that was read.
unfoldable pub applied_changed :
    CarrierEventStatus → ℕ → Shipment → ReducerDecision → List Effect → Applied
applied_changed status occurred_at found d sent = record {
  shipment = updated d occurred_at found;
  effects =
      sent
      ++ (if d.movement_changes
          then enqueue_fulfillment_event status ∷ movement_effects d.target_movement
          else []);
  outcome = some (record {
    state_changed = d.movement_changes;
    movement_state = d.target_movement;
    review_flag = d.review_flag;
  });
}

module _ (others : ℕ → Shipment → Shipment) (status : CarrierEventStatus) (occurred_at : ℕ) where
  -- The loop with `left` attempts to go.
  unfoldable pub apply_attempts : ℕ → Shipment → List Effect → Applied
  unfolding applied_unchanged applied_changed
  apply_attempts zero row sent = record { shipment = row; effects = sent; outcome = none }
  apply_attempts (suc left) row sent =
      let d = decide_transition row status in
      let sent' = sent ++ review_effects d in
      let found = others left row in
      let again = apply_attempts left found sent' in
      if not d.movement_changes && is_none d.custody_target
      then applied_unchanged status row d sent'
      else if found.version == row.version
      then applied_changed status occurred_at found d sent'
      else again

  unfoldable pub apply_event : Shipment → Applied
  unfolding apply_attempts
  apply_event row = apply_attempts max_version_retries row []
