-- ===== src/Booking/Settle.antt =====
-- src/modules/booking/booking-worker.service.ts: how a create, a lookup or an operator settles a booking.
use jsyxi_shipping.Prelude.{
  Bool, true, false, ◌&&◌, Option, none, some, List, [], ◌∷◌, Text, filter, find, is_empty, length,
  text_eq, ◌==◌, if◌then◌else◌,
}
use jsyxi_shipping.States.{BookingState, failed, outcome_unknown}
use jsyxi_shipping.Booking.Model.{
  ShipmentRow, IntentOutcome, intent_confirmed, intent_failed, unknown, resolved_confirmed,
  resolved_failed, IntentRow, Db, BookingJobData, ResultKind, kind_confirmed, kind_failed,
  kind_outcome_unknown, CreateAnswer, answered, circuit_open, budget_exhausted, rate_limited,
  auth_error, unsupported_capability, other_error, Effect, audit_unknown_resolved, audit_failed,
  audit_outcome_unknown, ConfirmResult, confirmed_as,
}
use jsyxi_shipping.Booking.Worker.{
  has_intent, has_key, is_submitted, is_unknown, set_outcome, set_state, update_rows,
}
use jsyxi_shipping.Booking.Confirm.{confirm_booking, is_given}

abbrev pub guard_of : BookingJobData → (BookingState → Bool) → ShipmentRow → Bool
guard_of job from row = has_key job.shop_id job.shipment_id row && from row.booking_state

-- An UPDATE of a shipment's state under a guard, and of the intent where it changed one row.
abbrev pub guarded_update :
    BookingJobData → (BookingState → Bool) → BookingState → (IntentRow → IntentRow) → Db → Db
guarded_update job from to settle_intent db =
    let guard = guard_of job from in
    record db {
      shipments = update_rows guard (set_state to) db.shipments;
      intents =
          if length (filter guard db.shipments) == 1
          then update_rows (has_intent job.booking_intent_id) settle_intent db.intents
          else db.intents;
    }

unfoldable pub settle_failed :
    BookingJobData → (BookingState → Bool) → IntentOutcome → Option Text → Db → Db
settle_failed job from outcome actor db =
    guarded_update job from failed (set_outcome outcome actor) db

unfoldable pub mark_outcome_unknown : BookingJobData → Db → Db
mark_outcome_unknown job db =
    guarded_update job is_submitted outcome_unknown (λ row. set_outcome unknown row.resolved_by row)
      db

-- The job ends, or throws for the queue to deliver it again.
pub data JobEnd : Type 0 where
  job_done job_retried : JobEnd

abbrev pub fail_submitted : BookingJobData → Db → JobEnd × Db × List Effect
fail_submitted job db =
    (job_done, settle_failed job is_submitted intent_failed none db, audit_failed ∷ [])

abbrev pub leave_unknown : BookingJobData → Db → JobEnd × Db × List Effect
leave_unknown job db = (job_done, mark_outcome_unknown job db, audit_outcome_unknown ∷ [])

-- An answer of loadOutcomeUnknown: the intent that is to be resolved, or why there is none.
pub data Loaded : Type 0 where
  loaded : IntentRow → Text → Loaded
  shipment_not_found load_invalid_state : Loaded

abbrev pub is_unknown_intent : Text → IntentRow → Bool
is_unknown_intent shipment row =
    text_eq shipment row.shipment_id && (elim row.outcome [ unknown ↦ true | _ ↦ false ])

abbrev pub loaded_from : Option IntentRow → Option Text → Loaded
loaded_from (some intent) (some account) =
    if is_empty account then load_invalid_state else loaded intent account
loaded_from _ _ = load_invalid_state

-- The intents stand newest first, as the query orders them.
unfoldable pub load_outcome_unknown : Text → Text → Db → Loaded
load_outcome_unknown shop shipment db = elim (find (has_key shop shipment) db.shipments) [
  | none ↦ shipment_not_found
  | some row ↦
      if is_unknown row.booking_state
      then loaded_from (find (is_unknown_intent shipment) db.intents) row.courier_account_id
      else load_invalid_state
]

pub record LookupResult : Type 0 where
  pub found : Bool
  pub awb : Option Text

-- A resolution answers with the outcome, or with the reason why there is none.
pub data Resolution : Type 0 where
  resolved_as_confirmed : Text → Resolution
  resolved_as_failed unresolved_not_found unresolved_state : Resolution

pub data Decision : Type 0 where
  decide_confirmed : Text → Decision
  decide_failed : Decision

abbrev pub job_of : Text → Text → IntentRow → BookingJobData
job_of shop shipment intent = record {
  shop_id = shop;
  shipment_id = shipment;
  booking_intent_id = intent.booking_intent_id;
}

abbrev pub resolution_of : ConfirmResult → Resolution
resolution_of (confirmed_as awb) = resolved_as_confirmed awb
resolution_of _ = unresolved_state

abbrev pub found_awb : LookupResult → Option Text
found_awb lookup = if lookup.found && is_given lookup.awb then lookup.awb else none

module _ (to_upper : Text → Text) (in_cycle : Text → Bool) where
  abbrev pub confirm_create : BookingJobData → Text → Option Text → Db → JobEnd × Db × List Effect
  confirm_create job awb charge db =
      let (_, after, effects) =
        confirm_booking to_upper in_cycle
          (record {
            job = job;
            awb = awb;
            charge = charge;
            outcome = intent_confirmed;
            resolved_by = none;
          })
          db in
      (job_done, after, effects)

  -- `result.kind === 'CONFIRMED' && result.awb`
  abbrev pub settle_confirmed :
      BookingJobData → Option Text → Option Text → Db → JobEnd × Db × List Effect
  settle_confirmed job none charge db = leave_unknown job db
  settle_confirmed job (some awb) charge db =
      if is_empty awb then leave_unknown job db else confirm_create job awb charge db

  -- Phase 3.
  abbrev pub settle_result :
      BookingJobData → ResultKind → Option Text → Option Text → Db → JobEnd × Db × List Effect
  settle_result job kind_confirmed awb charge db = settle_confirmed job awb charge db
  settle_result job kind_failed awb charge db = fail_submitted job db
  settle_result job kind_outcome_unknown awb charge db = leave_unknown job db

  -- The catch of phase 2, and phase 3.
  unfoldable pub settle : BookingJobData → CreateAnswer → Db → JobEnd × Db × List Effect
  settle job circuit_open db = (job_retried, db, [])
  settle job budget_exhausted db = (job_retried, db, [])
  settle job rate_limited db = (job_retried, db, [])
  settle job auth_error db = fail_submitted job db
  settle job unsupported_capability db = fail_submitted job db
  settle job other_error db = leave_unknown job db
  settle job (answered result) db =
      settle_result job result.kind result.awb result.confirmed_charge db

  -- With a number the booking is confirmed; without one it fails.
  unfoldable pub resolve :
      BookingJobData → Option Text → Option Text → Db → Resolution × Db × List Effect
  resolve job none member db = (
    resolved_as_failed,
    settle_failed job is_unknown resolved_failed member db,
    audit_unknown_resolved ∷ [],
  )
  resolve job (some awb) member db =
      let (answer, after, effects) =
        confirm_booking to_upper in_cycle
          (record {
            job = job;
            awb = awb;
            charge = none;
            outcome = resolved_confirmed;
            resolved_by = member;
          })
          db in
      (resolution_of answer, after, effects)

  abbrev pub resolve_loaded :
      Text → Text → Option Text → Option Text → Loaded → Db → Resolution × Db × List Effect
  resolve_loaded shop shipment awb member shipment_not_found db = (unresolved_not_found, db, [])
  resolve_loaded shop shipment awb member load_invalid_state db = (unresolved_state, db, [])
  resolve_loaded shop shipment awb member (loaded intent account) db =
      resolve (job_of shop shipment intent) awb member db

  -- `db` is read before the call of the adapter, `later` is what the transaction finds.
  unfoldable pub resolve_outcome_unknown :
      Text → Text → LookupResult → Db → Db → Resolution × Db × List Effect
  resolve_outcome_unknown shop shipment lookup db later =
      resolve_loaded shop shipment (found_awb lookup) none (load_outcome_unknown shop shipment db)
        later

  abbrev pub decided_awb : Decision → Option Text
  decided_awb (decide_confirmed awb) = some awb
  decided_awb decide_failed = none

  unfoldable pub resolve_outcome_unknown_by_operator :
      Text → Text → Text → Decision → Db → Db → Resolution × Db × List Effect
  resolve_outcome_unknown_by_operator shop shipment member decision db later =
      resolve_loaded shop shipment (decided_awb decision) (some member)
        (load_outcome_unknown shop shipment db) later
