-- ===== src/Booking/OneDebit/Kept.antt =====
-- A booking that stands confirmed stays so, and no answer or resolution debits for it again (INV-12).
use jsyxi_shipping.Prelude.{
  ◌≡◌, refl, inl, inr, Bool, true, false, Option, none, some, [], Text, Bool-cases, Option-cases,
}
use jsyxi_shipping.States.{BookingState, failed, outcome_unknown}
use jsyxi_shipping.Booking.Model.{
  ShipmentRow, unknown, Db, BookingJobData, IntentOutcome, invalid_state,
}
use jsyxi_shipping.Booking.Worker.{find_shipment, has_key, is_submitted, set_outcome, set_state}
use jsyxi_shipping.Booking.Confirm.{
  ConfirmArgs, confirm_booking, confirm_unless, may_confirm, set_confirmed,
}
use jsyxi_shipping.Booking.Settle.{mark_outcome_unknown, settle_failed}
use jsyxi_shipping.Booking.Uniqueness.{key_parts}
use jsyxi_shipping.Booking.OneDebit.{
  IsBooked, confirm_booking-refused, guarded-IsBooked, is_for, is_for_parts, update_rows-IsBooked,
}
use jsyxi_shipping.Rules.Candidates.Store.{text_eq_refl}

module _ (shop id : Text) where
  -- A row of the shipment is no row of another's job.
  other_key :
      (job : BookingJobData) (row : ShipmentRow)
      → is_for shop id job ≡ false
      → has_key shop id row ≡ true
      → has_key job.shop_id job.shipment_id row ≡ false
  other_key job row other own = elim (Bool-cases (has_key job.shop_id job.shipment_id row)) [
    | inr miss ↦ miss
    | inl hit ↦
        let (shop_r, id_r) = key_parts shop id row own in
        let (shop_j, id_j) = key_parts job.shop_id job.shipment_id row hit in
        let e : true ≡ false =
          rw (shop_r, id_r, shop_j, id_j, text_eq_refl row.shop_id, text_eq_refl row.shipment_id) at
            other in
        cc
  ]

  pub settle_failed-IsBooked :
      (job : BookingJobData) (from : BookingState → Bool) (outcome : IntentOutcome)
      (actor : Option Text) (db : Db)
      → from BookingState.confirmed ≡ false
      → IsBooked shop id db
      → IsBooked shop id (settle_failed job from outcome actor db)
  unfolding settle_failed
  settle_failed-IsBooked job from outcome actor db =
      guarded-IsBooked shop id job from failed (set_outcome outcome actor) db

  pub mark_outcome_unknown-IsBooked :
      (job : BookingJobData) (db : Db)
      → IsBooked shop id db
      → IsBooked shop id (mark_outcome_unknown job db)
  unfolding mark_outcome_unknown
  mark_outcome_unknown-IsBooked job db =
      guarded-IsBooked shop id job is_submitted outcome_unknown
        (λ row. set_outcome unknown row.resolved_by row) db refl

  module _ (to_upper : Text → Text) (in_cycle : Text → Bool) where
    other_unless-IsBooked :
        (args : ConfirmArgs) (shipment : ShipmentRow) (dupe : Option ShipmentRow) (db : Db)
        → is_for shop id args.job ≡ false
        → IsBooked shop id db
        → IsBooked shop id (confirm_unless to_upper in_cycle args shipment dupe db).1
    other_unless-IsBooked args shipment (some dupe) db other =
        update_rows-IsBooked shop id _ (set_state failed) db.shipments (λ row. refl)
          (λ row own booked. other_key args.job row other own)
    other_unless-IsBooked args shipment none db other =
        update_rows-IsBooked shop id _ (set_confirmed args _ _ _) db.shipments (λ row. refl)
          (λ row own booked. other_key args.job row other own)

    pub own_refused :
        (args : ConfirmArgs) (db : Db)
        → is_for shop id args.job ≡ true
        → IsBooked shop id db
        → confirm_booking to_upper in_cycle args db ≡ (invalid_state, db, [])
    own_refused args db own h =
        let (same_shop, same_id) = is_for_parts shop id args.job own in
        confirm_booking-refused to_upper in_cycle args db (rw (same_shop, same_id) at h)

    pub confirm_booking-IsBooked :
        (args : ConfirmArgs) (db : Db)
        → IsBooked shop id db
        → IsBooked shop id (confirm_booking to_upper in_cycle args db).1
    unfolding confirm_booking
    confirm_booking-IsBooked args db h = elim (Bool-cases (is_for shop id args.job)) [
      | inl own ↦ rw (own_refused args db own h) h
      | inr other ↦ elim (Option-cases (find_shipment args.job db)) [
        | inl gone ↦ rw (confirm_booking, gone) h
        | inr (shipment, found) ↦ elim (Bool-cases (may_confirm shipment)) [
          | inl may ↦
              rw (confirm_booking, found, may) (other_unless-IsBooked args shipment _ db other h)
          | inr refused ↦ rw (confirm_booking, found, refused) h
        ]
      ]
    ]
