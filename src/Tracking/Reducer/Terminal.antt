-- ===== src/Tracking/Reducer/Terminal.antt =====
-- What a decision says of terminal states, custody and the delivery instant.
use mathlib.Core.Bool.{false≢true}
use mathlib.Core.Option.{some-injective}
use jsyxi_shipping.Prelude.{
  sym, ◌∙◌, ◌≡◌, refl, ◌≢◌, ◌⊎◌, inl, inr, Bool, true, false, not, ◌&&◌, none, some, Bool-cases,
}
use jsyxi_shipping.States.{
  CarrierEventStatus, MovementState, CustodyState, is_terminal, movement_eq, movement_eq_iff,
}
use jsyxi_shipping.Tracking.Reducer.{
  Shipment, decide_transition, event_to_movement, is_picked_up, awaits_pickup, is_absent,
  is_cancel_requested, is_none,
}

-- A decision on a terminal shipment never changes its movement, and flags for review exactly where
-- the event asks for another one; then custody stays too.
decide_transition_terminal :
    (row : Shipment) (status : CarrierEventStatus)
    → is_terminal row.movement_state ≡ true
    → let d = decide_transition row status in
      (d.movement_changes ≡ false)
      × (d.set_delivered_at ≡ false)
      × (event_to_movement status ≢ row.movement_state
          → (d.review_flag ≡ true) × (d.custody_target ≡ none))
unfolding decide_transition
decide_transition_terminal row status h =
    let target = event_to_movement status in
    elim (Bool-cases (movement_eq target row.movement_state)) [
      | inl same ↦
          rw (h, same)
            (
              refl,
              refl,
              λ differs. absurd (differs ((movement_eq_iff target row.movement_state).0 same)),
            )
      | inr differs ↦ rw (h, differs) (refl, refl, λ _. (refl, refl))
    ]

pub decide_transition_target :
    (row : Shipment) (status : CarrierEventStatus)
    → (decide_transition row status).target_movement ≡ event_to_movement status
unfolding decide_transition
decide_transition_target row status =
    elim (Bool-cases (
      is_terminal row.movement_state
      && not (movement_eq (event_to_movement status) row.movement_state))) [
        | inl kept ↦ rw kept refl
        | inr free ↦ rw free refl
      ]

-- Where a decision changes the movement of a shipment, the shipment was not terminal, the new state
-- is the event's and another than the old one, and the delivery instant is set exactly for a
-- delivery of a shipment that has none.
pub decide_transition_changes :
    (row : Shipment) (status : CarrierEventStatus)
    → (decide_transition row status).movement_changes ≡ true
    → let d = decide_transition row status in
      (is_terminal row.movement_state ≡ false)
      × (d.target_movement ≡ event_to_movement status)
      × (event_to_movement status ≢ row.movement_state)
      × (d.set_delivered_at ≡ (
          movement_eq (event_to_movement status) MovementState.delivered
          && is_absent row.delivered_at))
unfolding decide_transition
decide_transition_changes row status e = elim (Bool-cases (is_terminal row.movement_state)) [
  | inl terminal ↦
      let kept : (decide_transition row status).movement_changes ≡ false =
        (decide_transition_terminal row status terminal).0 in
      absurd (cc)
  | inr open_ ↦ elim (Bool-cases (movement_eq (event_to_movement status) row.movement_state)) [
    | inl same ↦ cc (rw (open_, same) at e)
    | inr differs ↦
        rw (open_, differs)
          (
            refl,
            refl,
            (λ p. false≢true (
                sym differs ∙ (movement_eq_iff (event_to_movement status) row.movement_state).1 p)),
            refl,
          )
  ]
]

and_true : (a b : Bool) → (a && b) ≡ true → (a ≡ true) × (b ≡ true)
and_true true b h = (refl, h)
and_true false b h = cc

is_picked_up_lem :
    (status : CarrierEventStatus)
    → is_picked_up status ≡ true
    → status ≡ CarrierEventStatus.picked_up
is_picked_up_lem CarrierEventStatus.picked_up h = refl
is_picked_up_lem _ h = cc

-- Custody only ever moves to IN_CUSTODY, on a pick-up of a parcel that waits for one; the race with a
-- requested cancellation is flagged for review.
pub decide_transition_custody :
    (row : Shipment) (status : CarrierEventStatus) (c : CustodyState)
    → (decide_transition row status).custody_target ≡ some c
    → (c ≡ CustodyState.in_custody)
      × (status ≡ CarrierEventStatus.picked_up)
      × (awaits_pickup row.custody_state ≡ true)
      × ((decide_transition row status).review_flag ≡ is_cancel_requested row.custody_state)
unfolding decide_transition
decide_transition_custody row status c e =
    let target = event_to_movement status in
    elim (Bool-cases
      (is_terminal row.movement_state && not (movement_eq target row.movement_state))) [
        | inl regressing ↦ cc (rw regressing at e)
        | inr open_ ↦ elim (Bool-cases (is_picked_up status && awaits_pickup row.custody_state)) [
          | inr stays ↦ cc (rw (open_, stays) at e)
          | inl takes ↦
              let (picked, waits) = and_true _ _ takes in
              let same : some CustodyState.in_custody ≡ some c = rw (open_, takes) at e in
              rw (open_, takes)
                (sym (some-injective _ _ same), is_picked_up_lem status picked, waits, refl)
        ]
      ]

pub target_movement_lem :
    (row : Shipment) (status : CarrierEventStatus)
    → (decide_transition row status).target_movement ≡ event_to_movement status
unfolding decide_transition
target_movement_lem row status =
    elim (Bool-cases (
      is_terminal row.movement_state
      && not (movement_eq (event_to_movement status) row.movement_state))) [
        | inl regressing ↦ rw regressing
        | inr open_ ↦ rw open_
      ]

-- On a terminal shipment nothing is written, or the state that is written is the one it has.
pub terminal_write :
    (row : Shipment) (status : CarrierEventStatus)
    → is_terminal row.movement_state ≡ true
    → let d = decide_transition row status in
      ((not d.movement_changes && is_none d.custody_target) ≡ true)
      ⊎ (d.target_movement ≡ row.movement_state)
terminal_write row status h =
    let (still, _, differing) = decide_transition_terminal row status h in
    elim (Bool-cases (movement_eq (event_to_movement status) row.movement_state)) [
      | inl same ↦ inr (
          target_movement_lem row status
          ∙ (movement_eq_iff (event_to_movement status) row.movement_state).0 same)
      | inr differs ↦
          let custody : (decide_transition row status).custody_target ≡ none =
            (differing λ p. false≢true (
              sym differs
              ∙ (movement_eq_iff (event_to_movement status) row.movement_state).1 p)).1 in
          inl (rw (still, custody))
    ]
