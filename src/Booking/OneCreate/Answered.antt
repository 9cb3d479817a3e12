-- ===== src/Booking/OneCreate/Answered.antt =====
-- An answered create settles its intent, and no create follows it (INV-5).
use jsyxi_shipping.Prelude.{
  ◌≡◌, ◌≢◌, refl, sym, ap, ◌∙◌, inl, inr, Bool, true, false, Option, none, some, List, [], ◌∷◌,
  Text, All, Bool-cases, filter, filter-filter, find-filter, is_empty, text_eq,
}
use jsyxi_shipping.States.{BookingState, failed, outcome_unknown, submitted}
use jsyxi_shipping.Booking.Model.{
  ShipmentRow, IntentRow, IntentOutcome, intent_failed, unknown, Db, BookingJobData, CreateAnswer,
  answered, circuit_open, budget_exhausted, rate_limited, auth_error, unsupported_capability,
  other_error, ResultKind, kind_confirmed, kind_failed, kind_outcome_unknown,
}
use jsyxi_shipping.Booking.Worker.{
  find_shipment, has_intent, has_key, is_in_flight, is_submitted, set_outcome, update_rows,
}
use jsyxi_shipping.Booking.Confirm.{ConfirmArgs, confirm_booking, confirm_unless, may_confirm}
use jsyxi_shipping.Booking.Settle.{
  guarded_update, job_done, mark_outcome_unknown, settle, settle_confirmed, settle_failed,
  settle_result,
}
use jsyxi_shipping.Booking.History.{Event, creates, settle_job}
use jsyxi_shipping.Booking.OneCreate.{IsSettled, RowSettled}
use jsyxi_shipping.Booking.OneCreate.Histories.{creates-settled}
use jsyxi_shipping.Rules.Candidates.Store.{text_eq_refl}

set_outcome-IsSettled :
    (id : Text) (outcome : IntentOutcome) (by : IntentRow → Option Text) (rows : List IntentRow)
    → is_in_flight outcome ≡ false
    → All
        (RowSettled id)
        (update_rows (has_intent id) (λ row. set_outcome outcome (by row) row) rows)
unfolding update_rows
set_outcome-IsSettled id outcome by [] ends = tt
set_outcome-IsSettled id outcome by (row ∷ rows) ends = elim (Bool-cases (has_intent id row)) [
  | inl hit ↦ rw hit (λ own. ends, set_outcome-IsSettled id outcome by rows ends)
  | inr miss ↦ rw miss (
    λ own. let e : true ≡ false = sym (text_eq_refl id) ∙ ap (text_eq id) own ∙ miss in cc,
    set_outcome-IsSettled id outcome by rows ends,
  )
]

-- The shipment of the job is one row, which waits for the answer.
abbrev pub IsWaiting : BookingJobData → ShipmentRow → Db → Type 0
IsWaiting job shipment db =
    (filter (has_key job.shop_id job.shipment_id) db.shipments ≡ shipment ∷ [])
    × (shipment.booking_state ≡ submitted)

guarded-Settles :
    (job : BookingJobData) (to : BookingState) (outcome : IntentOutcome)
    (by : IntentRow → Option Text) (shipment : ShipmentRow) (db : Db)
    → is_in_flight outcome ≡ false
    → IsWaiting job shipment db
    → IsSettled job.booking_intent_id
        (guarded_update job is_submitted to (λ row. set_outcome outcome (by row) row) db)
guarded-Settles job to outcome by shipment db ends (own, waits) =
    rw
      (
        ← filter-filter (has_key job.shop_id job.shipment_id)
            (λ row. is_submitted row.booking_state) db.shipments,
        own,
        waits,
      )
      (set_outcome-IsSettled job.booking_intent_id outcome by db.intents ends)

settle_failed-Settles :
    (job : BookingJobData) (shipment : ShipmentRow) (db : Db)
    → IsWaiting job shipment db
    → IsSettled job.booking_intent_id (settle_failed job is_submitted intent_failed none db)
unfolding settle_failed
settle_failed-Settles job shipment db =
    guarded-Settles job failed intent_failed (λ _. none) shipment db refl

mark_outcome_unknown-Settles :
    (job : BookingJobData) (shipment : ShipmentRow) (db : Db)
    → IsWaiting job shipment db
    → IsSettled job.booking_intent_id (mark_outcome_unknown job db)
unfolding mark_outcome_unknown
mark_outcome_unknown-Settles job shipment db =
    guarded-Settles job outcome_unknown unknown (λ row. row.resolved_by) shipment db refl

module _ (to_upper : Text → Text) (in_cycle : Text → Bool) where
  confirm_unless-Settles :
      (args : ConfirmArgs) (shipment : ShipmentRow) (dupe : Option ShipmentRow) (db : Db)
      → is_in_flight args.outcome ≡ false
      → IsSettled args.job.booking_intent_id
          (confirm_unless to_upper in_cycle args shipment dupe db).1
  confirm_unless-Settles args shipment (some dupe) db ends =
      set_outcome-IsSettled args.job.booking_intent_id intent_failed (λ row. row.resolved_by)
        db.intents refl
  confirm_unless-Settles args shipment none db ends =
      set_outcome-IsSettled args.job.booking_intent_id args.outcome (λ _. args.resolved_by)
        db.intents ends

  confirm_booking-Settles :
      (args : ConfirmArgs) (shipment : ShipmentRow) (db : Db)
      → is_in_flight args.outcome ≡ false
      → IsWaiting args.job shipment db
      → IsSettled args.job.booking_intent_id (confirm_booking to_upper in_cycle args db).1
  unfolding confirm_booking
  confirm_booking-Settles args shipment db ends (own, waits) =
      let found : find_shipment args.job db ≡ some shipment =
        find-filter (has_key args.job.shop_id args.job.shipment_id) db.shipments shipment [] own in
      let may : may_confirm shipment ≡ true = rw waits refl in
      rw (confirm_booking, found, may) (confirm_unless-Settles args shipment _ db ends)

  settle_confirmed-Settles :
      (job : BookingJobData) (awb charge : Option Text) (shipment : ShipmentRow) (db : Db)
      → IsWaiting job shipment db
      → IsSettled job.booking_intent_id (settle_confirmed to_upper in_cycle job awb charge db).1
  settle_confirmed-Settles job none charge shipment db h =
      mark_outcome_unknown-Settles job shipment db h
  settle_confirmed-Settles job (some awb) charge shipment db h = elim (Bool-cases (is_empty awb)) [
    | inl blank ↦ rw blank (mark_outcome_unknown-Settles job shipment db h)
    | inr given ↦ rw given (confirm_booking-Settles _ shipment db refl h)
  ]

  settle_result-Settles :
      (job : BookingJobData) (kind : ResultKind) (awb charge : Option Text) (shipment : ShipmentRow)
      (db : Db)
      → IsWaiting job shipment db
      → IsSettled job.booking_intent_id (settle_result to_upper in_cycle job kind awb charge db).1
  settle_result-Settles job kind_confirmed awb charge shipment db =
      settle_confirmed-Settles job awb charge shipment db
  settle_result-Settles job kind_failed awb charge shipment db =
      settle_failed-Settles job shipment db
  settle_result-Settles job kind_outcome_unknown awb charge shipment db =
      mark_outcome_unknown-Settles job shipment db

  settle-Settles :
      (job : BookingJobData) (answer : CreateAnswer) (shipment : ShipmentRow) (db : Db)
      → (settle to_upper in_cycle job answer db).0 ≡ job_done
      → IsWaiting job shipment db
      → IsSettled job.booking_intent_id (settle to_upper in_cycle job answer db).1
  unfolding settle
  settle-Settles job circuit_open shipment db ended h = cc
  settle-Settles job budget_exhausted shipment db ended h = cc
  settle-Settles job rate_limited shipment db ended h = cc
  settle-Settles job auth_error shipment db ended h = settle_failed-Settles job shipment db h
  settle-Settles job unsupported_capability shipment db ended h =
      settle_failed-Settles job shipment db h
  settle-Settles job other_error shipment db ended h =
      mark_outcome_unknown-Settles job shipment db h
  settle-Settles job (answered result) shipment db ended h =
      settle_result-Settles job result.kind result.awb result.confirmed_charge shipment db h

  -- INV-5: where the job's shipment is one row that waits for its answer, and the answer does not send the
  -- job back to the queue, no create follows for the intent of the job, in any later history of deliveries,
  -- answers and resolutions.
  pub creates-settle_job :
      (job : BookingJobData) (answer : CreateAnswer) (shipment : ShipmentRow) (events : List Event)
      (db : Db)
      → (settle to_upper in_cycle job answer db).0 ≡ job_done
      → IsWaiting job shipment db
      → All
          (λ sent_id. sent_id ≢ job.booking_intent_id)
          (creates to_upper in_cycle (settle_job job answer ∷ events) db)
  creates-settle_job job answer shipment events db ended h =
      creates-settled job.booking_intent_id to_upper in_cycle events
        (settle to_upper in_cycle job answer db).1 (settle-Settles job answer shipment db ended h)
