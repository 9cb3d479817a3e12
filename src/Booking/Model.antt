-- ===== src/Booking/Model.antt =====
-- The rows that src/modules/booking/booking-worker.service.ts reads and writes, and what it is told. A
-- database is the list of the rows of each table; the columns `resolved_at` and `booked_at` are left out.
use jsyxi_shipping.Prelude.{ℕ, Bool, Option, List, Text}
use jsyxi_shipping.Derivation.Payment.{PaymentMode}
use jsyxi_shipping.States.{BookingState, CustodyState}

pub record Recipient : Type 0 where
  pub name : Option Text
  pub address_lines : List Text
  pub city : Option Text
  pub state : Option Text
  pub pincode : Option Text
  pub phone : Option Text
  pub email : Option Text

pub record FormulaInputs : Type 0 where
  pub origin_pincode : Text
  pub destination_pincode : Text
  pub dead_weight_kg : Text
  pub length_cm : Text
  pub width_cm : Text
  pub height_cm : Text
  pub payment_mode : PaymentMode
  pub collectible : Text
  pub declared_value : Text

-- What the worker reads of a frozen snapshot.
pub record BookingSnapshot : Type 0 where
  pub service_id : Option Text
  pub formula_inputs : FormulaInputs
  pub recipient : Option Recipient
  pub pickup_location_id : Option Text

pub data ExpectedCostBasis : Type 0 where
  snapshot_quote provider_confirmed_charge no_basis : ExpectedCostBasis

pub record ShipmentRow : Type 0 where
  pub shipment_id : Text
  pub shop_id : Text
  pub order_id : Text
  pub courier_account_id : Option Text
  pub booking_state : BookingState
  pub custody_state : CustodyState
  pub expected_cost_basis : Option ExpectedCostBasis
  pub confirmed_charge : Option Text
  pub snapshot : Option BookingSnapshot
  pub awb_raw : Option Text
  pub awb_normalized : Option Text
  pub is_test : Bool
  pub version : ℕ

pub data IntentOutcome : Type 0 where
  in_flight intent_confirmed intent_failed unknown : IntentOutcome
  resolved_confirmed resolved_failed : IntentOutcome

pub record IntentRow : Type 0 where
  pub booking_intent_id : Text
  pub shipment_id : Text
  pub outcome : IntentOutcome
  pub merchant_reference : Text
  pub request_digest : Text
  pub resolved_by : Option Text

pub record AccountRow : Type 0 where
  pub courier_account_id : Text
  pub shop_id : Text
  pub is_test_mode : Bool

pub record DlqItem : Type 0 where
  pub shop_id : Text
  pub shipment_id : Text
  pub booking_intent_id : Text
  pub conflicting_shipment_id : Text

pub record Db : Type 0 where
  pub shipments : List ShipmentRow
  pub intents : List IntentRow
  pub accounts : List AccountRow
  pub dlq : List DlqItem

pub record BookingJobData : Type 0 where
  pub shop_id : Text
  pub shipment_id : Text
  pub booking_intent_id : Text

pub data ResultKind : Type 0 where
  kind_confirmed kind_failed kind_outcome_unknown : ResultKind

pub record CreateShipmentResult : Type 0 where
  pub kind : ResultKind
  pub awb : Option Text
  pub confirmed_charge : Option Text
  pub failure_reasons : List Text

-- What the call of the adapter ends in: a result, or one of the errors that the worker tells apart.
pub data CreateAnswer : Type 0 where
  answered : CreateShipmentResult → CreateAnswer
  circuit_open budget_exhausted rate_limited : CreateAnswer
  auth_error unsupported_capability other_error : CreateAnswer

-- What follows a commit, in order: audit entries and the hooks, which never gate the booking.
pub data Effect : Type 0 where
  audit_duplicate_quarantined : Text → Effect
  audit_confirmed audit_unknown_resolved audit_failed audit_outcome_unknown : Effect
  ledger_debit record_overage check_allowance : Effect
  recompute_cod_assignment : Text → Effect
  fulfillment_create gst_invoice_hook buyer_notification : Effect

pub data ConfirmResult : Type 0 where
  confirmed_as : Text → ConfirmResult
  invalid_state duplicate_awb_quarantined : ConfirmResult
