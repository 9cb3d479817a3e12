-- ===== src/Booking/Worker.antt =====
-- src/modules/booking/booking-worker.service.ts: the transactions of the booking worker. Each is a
-- function of the database: it holds the lock of the shipment's row, and a confirmation the advisory lock
-- of its account and number, from its read to its commit. Between two of them any other may run.
use jsyxi_shipping.Prelude.{
  ◌+◌, Bool, true, false, ◌&&◌, ◌||◌, Option, none, some, List, [], ◌∷◌, Text, find, text_eq,
  if◌then◌else◌,
}
use jsyxi_shipping.States.{BookingState, queued, submitted, outcome_unknown, void}
use jsyxi_shipping.Booking.Model.{
  ShipmentRow, IntentOutcome, in_flight, IntentRow, Db, BookingJobData,
}
use jsyxi_shipping.Booking.Request.{CreateShipmentRequest, request_of}

abbrev pub is_queued : BookingState → Bool
is_queued queued = true
is_queued _ = false

abbrev pub is_submitted : BookingState → Bool
is_submitted submitted = true
is_submitted _ = false

abbrev pub is_unknown : BookingState → Bool
is_unknown outcome_unknown = true
is_unknown _ = false

abbrev pub is_void : BookingState → Bool
is_void void = true
is_void _ = false

abbrev pub is_in_flight : IntentOutcome → Bool
is_in_flight in_flight = true
is_in_flight _ = false

-- `WHERE shop_id = $1 AND shipment_id = $2`
abbrev pub has_key : Text → Text → ShipmentRow → Bool
has_key shop shipment row = text_eq shop row.shop_id && text_eq shipment row.shipment_id

abbrev pub find_shipment : BookingJobData → Db → Option ShipmentRow
find_shipment job db = find (has_key job.shop_id job.shipment_id) db.shipments

-- UPDATE … SET … WHERE …
unfoldable pub update_rows {ℓ} : {A : Type ℓ} → (A → Bool) → (A → A) → List A → List A
update_rows test set [] = []
update_rows test set (row ∷ rows) = (if test row then set row else row) ∷ update_rows test set rows

abbrev pub set_state : BookingState → ShipmentRow → ShipmentRow
set_state state row = record row { booking_state = state; version = row.version + 1 }

abbrev pub set_outcome : IntentOutcome → Option Text → IntentRow → IntentRow
set_outcome outcome by row = record row { outcome = outcome; resolved_by = by }

abbrev pub has_intent : Text → IntentRow → Bool
has_intent id row = text_eq id row.booking_intent_id

abbrev pub find_intent : BookingJobData → Db → Option IntentRow
find_intent job db =
    find (λ row. text_eq job.shipment_id row.shipment_id && has_intent job.booking_intent_id row)
      db.intents

abbrev pub may_claim : IntentRow → ShipmentRow → Bool
may_claim intent shipment =
    is_in_flight intent.outcome
    && (is_queued shipment.booking_state || is_submitted shipment.booking_state)

abbrev pub claim_update : BookingJobData → Db → Db
claim_update job db = record db {
  shipments =
      update_rows (λ row. has_key job.shop_id job.shipment_id row && is_queued row.booking_state)
        (set_state submitted) db.shipments;
}

-- Phase 1: QUEUED → SUBMITTED, where the intent is in flight. What is claimed is as it was read.
unfoldable pub claim : BookingJobData → Db → Option (ShipmentRow × IntentRow) × Db
claim job db = elim (find_shipment job db) [
  | none ↦ (none, db)
  | some shipment ↦ elim (find_intent job db) [
    | none ↦ (none, db)
    | some intent ↦
        if may_claim intent shipment
        then (
          some (shipment, intent),
          if is_queued shipment.booking_state then claim_update job db else db,
        )
        else (none, db)
  ]
]

-- Phase 2: the request of the create; none where the snapshot is missing, which throws.
abbrev pub create_request : Option (ShipmentRow × IntentRow) → Option CreateShipmentRequest
create_request none = none
create_request (some (shipment, intent)) = elim shipment.snapshot [
  | none ↦ none
  | some snapshot ↦ some (request_of intent snapshot)
]
