-- ===== src/Booking/Confirm.antt =====
-- src/modules/booking/booking-worker.service.ts: a shipment gets its number, or is quarantined with one that
-- another bears.
use jsyxi_shipping.Prelude.{
  ◌+◌, Bool, false, not, ◌&&◌, ◌||◌, Option, none, some, List, [], ◌∷◌, ◌++◌, Text, filter, find,
  is_empty, is_space, text_eq, trim, ◌==◌, if◌then◌else◌,
}
use jsyxi_shipping.States.{confirmed, failed, pickup_pending}
use jsyxi_shipping.Booking.Model.{
  ExpectedCostBasis, snapshot_quote, provider_confirmed_charge, no_basis, ShipmentRow,
  IntentOutcome, intent_failed, resolved_confirmed, AccountRow, Db, BookingJobData, Effect,
  audit_duplicate_quarantined, audit_confirmed, audit_unknown_resolved, ledger_debit,
  record_overage, check_allowance, recompute_cod_assignment, fulfillment_create, gst_invoice_hook,
  buyer_notification, ConfirmResult, confirmed_as, invalid_state, duplicate_awb_quarantined,
}
use jsyxi_shipping.Booking.Worker.{
  has_intent, has_key, find_shipment, is_submitted, is_unknown, is_void, set_outcome, set_state,
  update_rows,
}

abbrev pub same_account : Option Text → Option Text → Bool
same_account (some a) (some b) = text_eq a b
same_account _ _ = false

-- The query for another shipment of the account that bears the number; NULL equals nothing.
abbrev pub is_duplicate : ShipmentRow → Text → Text → Text → ShipmentRow → Bool
is_duplicate shipment shop id awb row =
    text_eq shop row.shop_id
    && same_account row.courier_account_id shipment.courier_account_id
    && same_account row.awb_normalized (some awb)
    && not (text_eq id row.shipment_id)
    && not (is_void row.booking_state)

abbrev pub account_is_test : Option AccountRow → Bool
account_is_test none = false
account_is_test (some account) = account.is_test_mode

abbrev pub is_account : Text → ShipmentRow → AccountRow → Bool
is_account shop shipment account =
    same_account (some account.courier_account_id) shipment.courier_account_id
    && text_eq account.shop_id shop

abbrev pub is_given : Option Text → Bool
is_given none = false
is_given (some text) = not (is_empty text)

abbrev pub basis_of : Option ExpectedCostBasis → Option Text → ExpectedCostBasis
basis_of (some snapshot_quote) charge = snapshot_quote
basis_of _ charge = if is_given charge then provider_confirmed_charge else no_basis

abbrev pub charge_kept : ExpectedCostBasis → Option Text → Option Text
charge_kept provider_confirmed_charge charge = charge
charge_kept _ charge = none

pub record ConfirmArgs : Type 0 where
  pub job : BookingJobData
  pub awb : Text
  pub charge : Option Text
  pub outcome : IntentOutcome
  pub resolved_by : Option Text

abbrev pub may_confirm : ShipmentRow → Bool
may_confirm row = is_submitted row.booking_state || is_unknown row.booking_state

-- INV-20: the shipment fails, the number is not stored, and the conflict is kept for inspection.
abbrev pub quarantine : ConfirmArgs → ShipmentRow → Db → Db
quarantine args dupe db = record db {
  shipments =
      update_rows (has_key args.job.shop_id args.job.shipment_id) (set_state failed) db.shipments;
  intents =
      update_rows (has_intent args.job.booking_intent_id)
        (λ row. set_outcome intent_failed row.resolved_by row) db.intents;
  dlq =
      db.dlq
      ++ record {
        shop_id = args.job.shop_id;
        shipment_id = args.job.shipment_id;
        booking_intent_id = args.job.booking_intent_id;
        conflicting_shipment_id = dupe.shipment_id;
      }
        ∷ [];
}

abbrev pub set_confirmed : ConfirmArgs → Text → ExpectedCostBasis → Bool → ShipmentRow → ShipmentRow
set_confirmed args awb basis test row = record row {
  booking_state = confirmed;
  awb_raw = some args.awb;
  awb_normalized = some awb;
  custody_state = pickup_pending;
  expected_cost_basis = some basis;
  confirmed_charge = charge_kept basis args.charge;
  is_test = test;
  version = row.version + 1;
}

abbrev pub audit_of : IntentOutcome → Effect
audit_of resolved_confirmed = audit_unknown_resolved
audit_of _ = audit_confirmed

module _ (to_upper : Text → Text) where
  -- F-19
  unfoldable pub normalize_awb : Text → Text
  normalize_awb raw = to_upper (filter (λ c. not (is_space c) && not (c == b'-')) (trim raw))

module _ (in_cycle : Text → Bool) where
  -- `in_cycle`: the shop has a trialing or active subscription with a started cycle.
  abbrev pub debit_effects : Text → Bool → List Effect
  debit_effects shop test =
      if test
      then []
      else if in_cycle shop
      then ledger_debit ∷ record_overage ∷ check_allowance ∷ []
      else []

  abbrev pub confirm_effects : ConfirmArgs → ShipmentRow → Bool → List Effect
  confirm_effects args shipment test =
      debit_effects args.job.shop_id test
      ++ audit_of args.outcome
        ∷ recompute_cod_assignment shipment.order_id
        ∷ (if test then [] else fulfillment_create ∷ [])
      ++ gst_invoice_hook ∷ buyer_notification ∷ []

module _ (to_upper : Text → Text) (in_cycle : Text → Bool) where
  abbrev pub confirm_row : ConfirmArgs → ShipmentRow → Db → ConfirmResult × Db × List Effect
  confirm_row args shipment db =
      let awb = normalize_awb to_upper args.awb in
      let test = account_is_test (find (is_account args.job.shop_id shipment) db.accounts) in
      let basis = basis_of shipment.expected_cost_basis args.charge in
      (
        confirmed_as awb,
        record db {
          shipments =
              update_rows (has_key args.job.shop_id args.job.shipment_id)
                (set_confirmed args awb basis test) db.shipments;
          intents =
              update_rows (has_intent args.job.booking_intent_id)
                (set_outcome args.outcome args.resolved_by) db.intents;
        },
        confirm_effects in_cycle args shipment test,
      )

  -- The branch after the query for a duplicate.
  abbrev pub confirm_unless :
      ConfirmArgs → ShipmentRow → Option ShipmentRow → Db → ConfirmResult × Db × List Effect
  confirm_unless args shipment (some dupe) db = (
    duplicate_awb_quarantined,
    quarantine args dupe db,
    audit_duplicate_quarantined dupe.shipment_id ∷ [],
  )
  confirm_unless args shipment none db = confirm_row args shipment db

  unfoldable pub confirm_booking : ConfirmArgs → Db → ConfirmResult × Db × List Effect
  confirm_booking args db = elim (find_shipment args.job db) [
    | none ↦ (invalid_state, db, [])
    | some shipment ↦
        if may_confirm shipment
        then confirm_unless args shipment
            (find
              (is_duplicate shipment args.job.shop_id args.job.shipment_id
                (normalize_awb to_upper args.awb))
              db.shipments)
            db
        else (invalid_state, db, [])
  ]
