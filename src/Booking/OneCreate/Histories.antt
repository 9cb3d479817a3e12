-- ===== src/Booking/OneCreate/Histories.antt =====
-- An intent that is no longer in flight sends no create (INV-5), in any history of the booking worker.
use jsyxi_shipping.Prelude.{
  ◌≡◌, ◌≢◌, refl, inl, inr, Bool, false, Option, none, some, List, [], ◌∷◌, Text, All, All-append,
  Bool-cases, Option-cases, is_empty,
}
use jsyxi_shipping.States.{BookingState, failed, outcome_unknown}
use jsyxi_shipping.Booking.Model.{
  ShipmentRow, IntentOutcome, intent_failed, unknown, Db, BookingJobData, CreateAnswer, answered,
  circuit_open, budget_exhausted, rate_limited, auth_error, unsupported_capability, other_error,
  ResultKind, kind_confirmed, kind_failed, kind_outcome_unknown,
}
use jsyxi_shipping.Booking.Worker.{
  find_shipment, has_intent, is_in_flight, is_submitted, is_unknown,
}
use jsyxi_shipping.Booking.Confirm.{ConfirmArgs, confirm_booking, confirm_unless, may_confirm}
use jsyxi_shipping.Booking.Settle.{
  mark_outcome_unknown, resolve, settle, settle_confirmed, settle_failed, settle_result,
}
use jsyxi_shipping.Booking.History.{Event, claim_job, creates, resolve_job, sent, settle_job, step}
use jsyxi_shipping.Booking.OneCreate.{
  IsSettled, claim-IsSettled, guarded-IsSettled, sent-settled, update_rows-IsSettled,
}

module _ (id : Text) where
  settle_failed-IsSettled :
      (job : BookingJobData) (from : BookingState → Bool) (outcome : IntentOutcome)
      (actor : Option Text) (db : Db)
      → is_in_flight outcome ≡ false
      → IsSettled id db
      → IsSettled id (settle_failed job from outcome actor db)
  unfolding settle_failed
  settle_failed-IsSettled job from outcome actor db =
      guarded-IsSettled id job from failed outcome (λ _. actor) db

  mark_outcome_unknown-IsSettled :
      (job : BookingJobData) (db : Db)
      → IsSettled id db
      → IsSettled id (mark_outcome_unknown job db)
  unfolding mark_outcome_unknown
  mark_outcome_unknown-IsSettled job db =
      guarded-IsSettled id job is_submitted outcome_unknown unknown (λ row. row.resolved_by) db refl

  module _ (to_upper : Text → Text) (in_cycle : Text → Bool) where
    confirm_unless-IsSettled :
        (args : ConfirmArgs) (shipment : ShipmentRow) (dupe : Option ShipmentRow) (db : Db)
        → is_in_flight args.outcome ≡ false
        → IsSettled id db
        → IsSettled id (confirm_unless to_upper in_cycle args shipment dupe db).1
    confirm_unless-IsSettled args shipment (some dupe) db ends h =
        update_rows-IsSettled id (has_intent args.job.booking_intent_id) intent_failed
          (λ row. row.resolved_by) db.intents refl h
    confirm_unless-IsSettled args shipment none db ends h =
        update_rows-IsSettled id (has_intent args.job.booking_intent_id) args.outcome
          (λ _. args.resolved_by) db.intents ends h

    confirm_booking-IsSettled :
        (args : ConfirmArgs) (db : Db)
        → is_in_flight args.outcome ≡ false
        → IsSettled id db
        → IsSettled id (confirm_booking to_upper in_cycle args db).1
    unfolding confirm_booking
    confirm_booking-IsSettled args db ends h = elim (Option-cases (find_shipment args.job db)) [
      | inl gone ↦ rw (confirm_booking, gone) h
      | inr (shipment, found) ↦ elim (Bool-cases (may_confirm shipment)) [
        | inl may ↦
            rw (confirm_booking, found, may) (confirm_unless-IsSettled args shipment _ db ends h)
        | inr refused ↦ rw (confirm_booking, found, refused) h
      ]
    ]

    settle_confirmed-IsSettled :
        (job : BookingJobData) (awb charge : Option Text) (db : Db)
        → IsSettled id db
        → IsSettled id (settle_confirmed to_upper in_cycle job awb charge db).1
    settle_confirmed-IsSettled job none charge db h = mark_outcome_unknown-IsSettled job db h
    settle_confirmed-IsSettled job (some awb) charge db h = elim (Bool-cases (is_empty awb)) [
      | inl blank ↦ rw blank (mark_outcome_unknown-IsSettled job db h)
      | inr given ↦ rw given (confirm_booking-IsSettled _ db refl h)
    ]

    settle_result-IsSettled :
        (job : BookingJobData) (kind : ResultKind) (awb charge : Option Text) (db : Db)
        → IsSettled id db
        → IsSettled id (settle_result to_upper in_cycle job kind awb charge db).1
    settle_result-IsSettled job kind_confirmed awb charge db =
        settle_confirmed-IsSettled job awb charge db
    settle_result-IsSettled job kind_failed awb charge db =
        settle_failed-IsSettled job is_submitted _ _ db refl
    settle_result-IsSettled job kind_outcome_unknown awb charge db =
        mark_outcome_unknown-IsSettled job db

    settle-IsSettled :
        (job : BookingJobData) (answer : CreateAnswer) (db : Db)
        → IsSettled id db
        → IsSettled id (settle to_upper in_cycle job answer db).1
    unfolding settle
    settle-IsSettled job circuit_open db h = h
    settle-IsSettled job budget_exhausted db h = h
    settle-IsSettled job rate_limited db h = h
    settle-IsSettled job auth_error db h = settle_failed-IsSettled job is_submitted _ _ db refl h
    settle-IsSettled job unsupported_capability db h =
        settle_failed-IsSettled job is_submitted _ _ db refl h
    settle-IsSettled job other_error db h = mark_outcome_unknown-IsSettled job db h
    settle-IsSettled job (answered result) db h =
        settle_result-IsSettled job result.kind result.awb result.confirmed_charge db h

    resolve-IsSettled :
        (job : BookingJobData) (awb member : Option Text) (db : Db)
        → IsSettled id db
        → IsSettled id (resolve to_upper in_cycle job awb member db).1
    unfolding resolve
    resolve-IsSettled job none member db = settle_failed-IsSettled job is_unknown _ member db refl
    resolve-IsSettled job (some awb) member db = confirm_booking-IsSettled _ db refl

    step-IsSettled :
        (event : Event) (db : Db) → IsSettled id db → IsSettled id (step to_upper in_cycle event db)
    step-IsSettled (claim_job job) db = claim-IsSettled id job db
    step-IsSettled (settle_job job answer) db = settle-IsSettled job answer db
    step-IsSettled (resolve_job job awb member) db = resolve-IsSettled job awb member db

    step-sent :
        (event : Event) (db : Db)
        → IsSettled id db
        → All (λ sent_id. sent_id ≢ id) (sent to_upper in_cycle event db)
    step-sent (claim_job job) db h = sent-settled id job db h
    step-sent (settle_job job answer) db h = tt
    step-sent (resolve_job job awb member) db h = tt

    -- INV-5: once no row of an intent is IN_FLIGHT, no history of deliveries, answers and resolutions, in
    -- any order and for any job, sends the courier a create for that intent.
    pub creates-settled :
        (events : List Event) (db : Db)
        → IsSettled id db
        → All (λ sent_id. sent_id ≢ id) (creates to_upper in_cycle events db)
    creates-settled [] db h = tt
    creates-settled (event ∷ events) db h =
        All-append _ (sent to_upper in_cycle event db) _ (step-sent event db h)
          (creates-settled events (step to_upper in_cycle event db) (step-IsSettled event db h))
