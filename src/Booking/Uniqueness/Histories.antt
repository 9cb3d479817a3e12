-- ===== src/Booking/Uniqueness/Histories.antt =====
-- No two shipments share a number of an account (INV-6), in any history of the booking worker.
use jsyxi_shipping.Prelude.{
  ◌≡◌, refl, subst, inl, inr, Bool, true, false, ◌&&◌, ◌||◌, Option, none, some, List, [], ◌∷◌,
  arith, Text, All-each, All-both, All-weaken, Bool-cases, Option-cases, find, find-none, is_empty,
}
use jsyxi_shipping.States.{BookingState, queued, submitted, failed, outcome_unknown, void}
use jsyxi_shipping.Booking.Model.{
  ShipmentRow, IntentRow, IntentOutcome, Db, BookingJobData, CreateAnswer, answered, circuit_open,
  budget_exhausted, rate_limited, auth_error, unsupported_capability, other_error, ResultKind,
  kind_confirmed, kind_failed, kind_outcome_unknown, unknown,
}
use jsyxi_shipping.Booking.Worker.{
  claim, claim_update, find_intent, find_shipment, has_key, is_queued, is_submitted, is_unknown,
  is_void, may_claim, set_outcome,
}
use jsyxi_shipping.Booking.Confirm.{
  ConfirmArgs, confirm_booking, confirm_unless, is_duplicate, may_confirm, normalize_awb,
}
use jsyxi_shipping.Booking.Settle.{
  guarded_update, mark_outcome_unknown, resolve, settle, settle_confirmed, settle_failed,
  settle_result,
}
use jsyxi_shipping.Booking.History.{Event, claim_job, resolve_job, run, settle_job, step}
use jsyxi_shipping.Booking.Uniqueness.{AllPairs, IsUnique, known_key, set_state-AllPairs}
use jsyxi_shipping.Booking.Uniqueness.Confirmed.{set_confirmed-AllPairs}

-- In the shipments of a database, rows of one key are one row, and no two shipments that are not VOID
-- bear one number of one account of a shop.
abbrev pub HasUniqueAwbs : Db → Type 0
HasUniqueAwbs db = AllPairs IsUnique db.shipments

-- A guard that no VOID shipment passes.
abbrev Lively : (BookingState → Bool) → Type 0
Lively from = (s : BookingState) → from s ≡ true → is_void s ≡ false

queued_live : Lively is_queued
queued_live queued h = refl
queued_live void h = cc
queued_live _ h = refl

submitted_live : Lively is_submitted
submitted_live submitted h = refl
submitted_live void h = cc
submitted_live _ h = refl

unknown_live : Lively is_unknown
unknown_live outcome_unknown h = refl
unknown_live void h = cc
unknown_live _ h = refl

confirmable_live : (row : ShipmentRow) → may_confirm row ≡ true → is_void row.booking_state ≡ false
confirmable_live row h = confirmable row.booking_state h
  where
    confirmable : (s : BookingState) → (is_submitted s || is_unknown s) ≡ true → is_void s ≡ false
    confirmable void h = cc
    confirmable _ h = refl

guarded-HasUniqueAwbs :
    (job : BookingJobData) (from : BookingState → Bool) (to : BookingState)
    (set : IntentRow → IntentRow) (db : Db)
    → Lively from
    → HasUniqueAwbs db
    → HasUniqueAwbs (guarded_update job from to set db)
guarded-HasUniqueAwbs job from to set db lively =
    set_state-AllPairs (λ row. has_key job.shop_id job.shipment_id row && from row.booking_state) to
      db.shipments (All-each _ db.shipments (λ row h. lively row.booking_state (second _ _ h)))
  where
    second : (a b : Bool) → (a && b) ≡ true → b ≡ true
    second a b h = ground arith

settle_failed-HasUniqueAwbs :
    (job : BookingJobData) (from : BookingState → Bool) (outcome : IntentOutcome)
    (actor : Option Text) (db : Db)
    → Lively from
    → HasUniqueAwbs db
    → HasUniqueAwbs (settle_failed job from outcome actor db)
unfolding settle_failed
settle_failed-HasUniqueAwbs job from outcome actor db =
    guarded-HasUniqueAwbs job from failed (set_outcome outcome actor) db

mark_outcome_unknown-HasUniqueAwbs :
    (job : BookingJobData) (db : Db)
    → HasUniqueAwbs db
    → HasUniqueAwbs (mark_outcome_unknown job db)
unfolding mark_outcome_unknown
mark_outcome_unknown-HasUniqueAwbs job db =
    guarded-HasUniqueAwbs job is_submitted outcome_unknown
      (λ row. set_outcome unknown row.resolved_by row) db submitted_live

claim_update-HasUniqueAwbs :
    (job : BookingJobData) (db : Db) → HasUniqueAwbs db → HasUniqueAwbs (claim_update job db)
claim_update-HasUniqueAwbs job db =
    guarded-HasUniqueAwbs job is_queued submitted (λ row. row) db queued_live

claim-HasUniqueAwbs :
    (job : BookingJobData) (db : Db) → HasUniqueAwbs db → HasUniqueAwbs (claim job db).1
unfolding claim
claim-HasUniqueAwbs job db h = elim (Option-cases (find_shipment job db)) [
  | inl gone ↦ rw (claim, gone) h
  | inr (shipment, found) ↦ elim (Option-cases (find_intent job db)) [
    | inl gone ↦ rw (claim, found, gone) h
    | inr (intent, there) ↦ elim (Bool-cases (may_claim intent shipment)) [
      | inr refused ↦ rw (claim, found, there, refused) h
      | inl claimed ↦ elim (Bool-cases (is_queued shipment.booking_state)) [
        | inl waiting ↦
            rw (claim, found, there, claimed, waiting) (claim_update-HasUniqueAwbs job db h)
        | inr sent ↦ rw (claim, found, there, claimed, sent) h
      ]
    ]
  ]
]

module _ (to_upper : Text → Text) (in_cycle : Text → Bool) where
  confirm_unless-HasUniqueAwbs :
      (args : ConfirmArgs) (shipment : ShipmentRow) (db : Db) (dupe : Option ShipmentRow)
      → find_shipment args.job db ≡ some shipment
      → may_confirm shipment ≡ true
      → find
          (is_duplicate shipment args.job.shop_id args.job.shipment_id
            (normalize_awb to_upper args.awb))
          db.shipments
        ≡ dupe
      → HasUniqueAwbs db
      → HasUniqueAwbs (confirm_unless to_upper in_cycle args shipment dupe db).1
  confirm_unless-HasUniqueAwbs args shipment db (some dupe) found may searched h =
      set_state-AllPairs (has_key args.job.shop_id args.job.shipment_id) failed db.shipments
        (All-weaken _ _ db.shipments
          (λ row same own.
            subst (λ (r : ShipmentRow). is_void r.booking_state ≡ false) (same own)
              (confirmable_live shipment may))
          (known_key shipment args.job.shop_id args.job.shipment_id args.awb db.shipments h found))
        h
  confirm_unless-HasUniqueAwbs args shipment db none found may searched h =
      let awb = normalize_awb to_upper args.awb in
      set_confirmed-AllPairs args awb _ _ shipment db.shipments
        (All-both _ _ db.shipments
          (known_key shipment args.job.shop_id args.job.shipment_id awb db.shipments h found)
          (find-none _ db.shipments searched))
        h

  confirm_booking-HasUniqueAwbs :
      (args : ConfirmArgs) (db : Db)
      → HasUniqueAwbs db
      → HasUniqueAwbs (confirm_booking to_upper in_cycle args db).1
  unfolding confirm_booking
  confirm_booking-HasUniqueAwbs args db h = elim (Option-cases (find_shipment args.job db)) [
    | inl gone ↦ rw (confirm_booking, gone) h
    | inr (shipment, found) ↦ elim (Bool-cases (may_confirm shipment)) [
      | inl may ↦
          rw (confirm_booking, found, may)
            (confirm_unless-HasUniqueAwbs args shipment db _ found may refl h)
      | inr refused ↦ rw (confirm_booking, found, refused) h
    ]
  ]

  settle_confirmed-HasUniqueAwbs :
      (job : BookingJobData) (awb charge : Option Text) (db : Db)
      → HasUniqueAwbs db
      → HasUniqueAwbs (settle_confirmed to_upper in_cycle job awb charge db).1
  settle_confirmed-HasUniqueAwbs job none charge db h = mark_outcome_unknown-HasUniqueAwbs job db h
  settle_confirmed-HasUniqueAwbs job (some awb) charge db h = elim (Bool-cases (is_empty awb)) [
    | inl blank ↦ rw blank (mark_outcome_unknown-HasUniqueAwbs job db h)
    | inr given ↦ rw given (confirm_booking-HasUniqueAwbs _ db h)
  ]

  settle_result-HasUniqueAwbs :
      (job : BookingJobData) (kind : ResultKind) (awb charge : Option Text) (db : Db)
      → HasUniqueAwbs db
      → HasUniqueAwbs (settle_result to_upper in_cycle job kind awb charge db).1
  settle_result-HasUniqueAwbs job kind_confirmed awb charge db =
      settle_confirmed-HasUniqueAwbs job awb charge db
  settle_result-HasUniqueAwbs job kind_failed awb charge db =
      settle_failed-HasUniqueAwbs job is_submitted _ _ db submitted_live
  settle_result-HasUniqueAwbs job kind_outcome_unknown awb charge db =
      mark_outcome_unknown-HasUniqueAwbs job db

  settle-HasUniqueAwbs :
      (job : BookingJobData) (answer : CreateAnswer) (db : Db)
      → HasUniqueAwbs db
      → HasUniqueAwbs (settle to_upper in_cycle job answer db).1
  unfolding settle
  settle-HasUniqueAwbs job circuit_open db h = h
  settle-HasUniqueAwbs job budget_exhausted db h = h
  settle-HasUniqueAwbs job rate_limited db h = h
  settle-HasUniqueAwbs job auth_error db h =
      settle_failed-HasUniqueAwbs job is_submitted _ _ db submitted_live h
  settle-HasUniqueAwbs job unsupported_capability db h =
      settle_failed-HasUniqueAwbs job is_submitted _ _ db submitted_live h
  settle-HasUniqueAwbs job other_error db h = mark_outcome_unknown-HasUniqueAwbs job db h
  settle-HasUniqueAwbs job (answered result) db h =
      settle_result-HasUniqueAwbs job result.kind result.awb result.confirmed_charge db h

  resolve-HasUniqueAwbs :
      (job : BookingJobData) (awb member : Option Text) (db : Db)
      → HasUniqueAwbs db
      → HasUniqueAwbs (resolve to_upper in_cycle job awb member db).1
  unfolding resolve
  resolve-HasUniqueAwbs job none member db =
      settle_failed-HasUniqueAwbs job is_unknown _ member db unknown_live
  resolve-HasUniqueAwbs job (some awb) member db = confirm_booking-HasUniqueAwbs _ db

  step-HasUniqueAwbs :
      (event : Event) (db : Db) → HasUniqueAwbs db → HasUniqueAwbs (step to_upper in_cycle event db)
  step-HasUniqueAwbs (claim_job job) db = claim-HasUniqueAwbs job db
  step-HasUniqueAwbs (settle_job job answer) db = settle-HasUniqueAwbs job answer db
  step-HasUniqueAwbs (resolve_job job awb member) db = resolve-HasUniqueAwbs job awb member db

  -- INV-6: in every history of deliveries, answers and resolutions, in any order, a database in which no
  -- two shipments that are not VOID bear one number of one account of a shop, and each key is one row,
  -- stays so.
  pub run-HasUniqueAwbs :
      (events : List Event) (db : Db)
      → HasUniqueAwbs db
      → HasUniqueAwbs (run to_upper in_cycle events db)
  run-HasUniqueAwbs [] db h = h
  run-HasUniqueAwbs (event ∷ events) db h =
      run-HasUniqueAwbs events (step to_upper in_cycle event db) (step-HasUniqueAwbs event db h)
