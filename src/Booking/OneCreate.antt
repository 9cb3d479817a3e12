-- ===== src/Booking/OneCreate.antt =====
-- An intent that is no longer in flight sends no create (INV-5), in any history of the booking worker.
pub mod Histories
pub mod Answered
use mathlib.Core.Bool.{true≢false}
use jsyxi_shipping.Prelude.{
  ◌≡◌, ◌≢◌, sym, ◌∙◌, inl, inr, Bool, true, false, ◌&&◌, ◌==◌, Option, some, List, [], ◌∷◌, arith,
  Text, All, Bool-cases, Option-cases, filter, length,
}
use jsyxi_shipping.States.{BookingState}
use jsyxi_shipping.Booking.Model.{ShipmentRow, IntentRow, IntentOutcome, Db, BookingJobData}
use jsyxi_shipping.Booking.Request.{request_of}
use jsyxi_shipping.Booking.Worker.{
  claim, create_request, find_intent, find_shipment, has_intent, is_in_flight, is_queued, may_claim,
  set_outcome, update_rows,
}
use jsyxi_shipping.Booking.Settle.{guard_of, guarded_update}
use jsyxi_shipping.Booking.History.{created_by}
use jsyxi_shipping.Rules.Candidates.Store.{find-All}

-- Every row of the intent has an outcome.
abbrev pub RowSettled : Text → IntentRow → Type 0
RowSettled id row = id ≡ row.booking_intent_id → is_in_flight row.outcome ≡ false

abbrev pub IsSettled : Text → Db → Type 0
IsSettled id db = All (RowSettled id) db.intents

pub update_rows-IsSettled :
    (id : Text) (test : IntentRow → Bool) (outcome : IntentOutcome) (by : IntentRow → Option Text)
    (rows : List IntentRow)
    → is_in_flight outcome ≡ false
    → All (RowSettled id) rows
    → All (RowSettled id) (update_rows test (λ row. set_outcome outcome (by row) row) rows)
unfolding update_rows
update_rows-IsSettled id test outcome by [] ends h = tt
update_rows-IsSettled id test outcome by (row ∷ rows) ends (p, h) = elim (Bool-cases (test row)) [
  | inl hit ↦ rw hit (λ own. ends, update_rows-IsSettled id test outcome by rows ends h)
  | inr miss ↦ rw miss (p, update_rows-IsSettled id test outcome by rows ends h)
]

module _ (id : Text) where
  pub claim-IsSettled :
      (job : BookingJobData) (db : Db) → IsSettled id db → IsSettled id (claim job db).1
  unfolding claim
  claim-IsSettled job db h = elim (Option-cases (find_shipment job db)) [
    | inl gone ↦ rw (claim, gone) h
    | inr (shipment, found) ↦ elim (Option-cases (find_intent job db)) [
      | inl gone ↦ rw (claim, found, gone) h
      | inr (intent, there) ↦ elim (Bool-cases (may_claim intent shipment)) [
        | inr refused ↦ rw (claim, found, there, refused) h
        | inl claimed ↦ elim (Bool-cases (is_queued shipment.booking_state)) [
          | inl waiting ↦ rw (claim, found, there, claimed, waiting) h
          | inr resumed ↦ rw (claim, found, there, claimed, resumed) h
        ]
      ]
    ]
  ]

  created-other :
      (shipment : ShipmentRow) (intent : IntentRow)
      → intent.booking_intent_id ≢ id
      → All (λ sent_id. sent_id ≢ id) (created_by (create_request (some (shipment, intent))))
  unfolding request_of
  created-other shipment intent other = elim (Option-cases shipment.snapshot) [
    | inl absent ↦ rw absent tt
    | inr (snapshot, there) ↦ rw there (other, tt)
  ]

  in_flight-other :
      (job : BookingJobData) (db : Db) (shipment : ShipmentRow) (intent : IntentRow)
      → IsSettled id db
      → find_intent job db ≡ some intent
      → may_claim intent shipment ≡ true
      → intent.booking_intent_id ≢ id
  in_flight-other job db shipment intent h there claimed same =
      let (settled, _) = find-All (RowSettled id) _ db.intents intent h there in
      true≢false (sym (first _ _ claimed) ∙ settled (sym same))
    where
      first : (a b : Bool) → (a && b) ≡ true → a ≡ true
      first a b h = ground arith

  -- What a claim takes up is an intent in flight: not one that is settled.
  pub sent-settled :
      (job : BookingJobData) (db : Db)
      → IsSettled id db
      → All (λ sent_id. sent_id ≢ id) (created_by (create_request (claim job db).0))
  unfolding claim
  sent-settled job db h = elim (Option-cases (find_shipment job db)) [
    | inl gone ↦ rw (claim, gone) tt
    | inr (shipment, found) ↦ elim (Option-cases (find_intent job db)) [
      | inl gone ↦ rw (claim, found, gone) tt
      | inr (intent, there) ↦ elim (Bool-cases (may_claim intent shipment)) [
        | inr refused ↦ rw (claim, found, there, refused) tt
        | inl claimed ↦
            rw (claim, found, there, claimed)
              (created-other shipment intent
                (in_flight-other job db shipment intent h there claimed))
      ]
    ]
  ]

  pub guarded-IsSettled :
      (job : BookingJobData) (from : BookingState → Bool) (to : BookingState)
      (outcome : IntentOutcome) (by : IntentRow → Option Text) (db : Db)
      → is_in_flight outcome ≡ false
      → IsSettled id db
      → IsSettled id (guarded_update job from to (λ row. set_outcome outcome (by row) row) db)
  guarded-IsSettled job from to outcome by db ends h =
      elim (Bool-cases (length (filter (guard_of job from) db.shipments) == 1)) [
        | inl one ↦ rw one (
            update_rows-IsSettled id (has_intent job.booking_intent_id) outcome by db.intents ends
              h)
        | inr other ↦ rw other h
      ]
