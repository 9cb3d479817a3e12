-- ===== src/Examples/Bookings.antt =====
-- The booking worker on a shop with two shipments of one account, which one number is given to.
use jsyxi_shipping.Prelude.{
  ◌≡◌, ◌≤◌, ◌≢◌, refl, ap, true, false, none, some, List, [], ◌∷◌, All, Text, codes, text_eq,
  if◌then◌else◌,
}
use jsyxi_shipping.States.{BookingState, submitted, outcome_unknown, not_applicable}
use jsyxi_shipping.Booking.Model.{
  ShipmentRow, IntentRow, IntentOutcome, in_flight, intent_confirmed, unknown, Db, BookingJobData,
  BookingSnapshot, CreateAnswer, answered, kind_confirmed,
}
use jsyxi_shipping.Booking.History.{Event, claim_job, creates, run, settle_job, resolve_job}
use jsyxi_shipping.Booking.Uniqueness.{IsUnique}
use jsyxi_shipping.Booking.Uniqueness.Histories.{HasUniqueAwbs, run-HasUniqueAwbs}
use jsyxi_shipping.Booking.Worker.{update_rows}
use jsyxi_shipping.Booking.Confirm.{ConfirmArgs, confirm_booking}
use jsyxi_shipping.Booking.Outcomes.Branches.{ConfirmOutcome, confirm_booking-ConfirmOutcome}
use jsyxi_shipping.Booking.Settle.{job_done, resolve, settle}
use jsyxi_shipping.Booking.OneDebit.Histories.{debits, debits-once}
use jsyxi_shipping.Booking.OneCreate.Answered.{IsWaiting, creates-settle_job}
use jsyxi_shipping.Derivation.Payment.{prepaid}

abbrev same_text : Text → Text
same_text text = text

-- The first shipment waits for its answer, and the answer for any other was lost.
abbrev state_of : Text → BookingState
state_of id = if text_eq id (codes "s1") then submitted else outcome_unknown

abbrev frozen : BookingSnapshot
frozen = record {
  service_id = some (codes "surface");
  formula_inputs = record {
    origin_pincode = codes "400001";
    destination_pincode = codes "560001";
    dead_weight_kg = codes "0.500";
    length_cm = codes "10";
    width_cm = codes "10";
    height_cm = codes "10";
    payment_mode = prepaid;
    collectible = codes "0.00";
    declared_value = codes "499.00";
  };
  recipient = none;
  pickup_location_id = some (codes "dock");
}

abbrev row_of : Text → ShipmentRow
row_of id = record {
  shipment_id = id;
  shop_id = codes "shop";
  order_id = codes "order";
  courier_account_id = some (codes "account");
  booking_state = state_of id;
  custody_state = not_applicable;
  expected_cost_basis = none;
  confirmed_charge = none;
  snapshot = some frozen;
  awb_raw = none;
  awb_normalized = none;
  is_test = false;
  version = 2;
}

abbrev intent_of : Text → Text → IntentOutcome → IntentRow
intent_of id shipment outcome = record {
  booking_intent_id = id;
  shipment_id = shipment;
  outcome = outcome;
  merchant_reference = shipment;
  request_digest = codes "digest";
  resolved_by = none;
}

abbrev two_shipments : Db
two_shipments = record {
  shipments = row_of (codes "s1") ∷ row_of (codes "s2") ∷ [];
  intents =
      intent_of (codes "i1") (codes "s1") in_flight
      ∷ intent_of (codes "i2") (codes "s2") unknown
      ∷ [];
  accounts = [];
  dlq = [];
}

abbrev job_1 : BookingJobData
job_1 = record { shop_id = codes "shop"; shipment_id = codes "s1"; booking_intent_id = codes "i1" }

abbrev job_2 : BookingJobData
job_2 = record { shop_id = codes "shop"; shipment_id = codes "s2"; booking_intent_id = codes "i2" }

abbrev numbered : CreateAnswer
numbered = answered record {
  kind = kind_confirmed;
  awb = some (codes "AWB 1");
  confirmed_charge = none;
  failure_reasons = [];
}

-- Both shipments are given one number.
abbrev one_number : List Event
one_number =
    claim_job job_1
    ∷ settle_job job_1 numbered
    ∷ resolve_job job_2 (some (codes "AWB 1")) none
    ∷ claim_job job_2
    ∷ []

-- Rows without a number share none, and their ids make them out.
unnumbered-IsUnique : (id other : Text) → IsUnique (row_of id) (row_of other)
unnumbered-IsUnique id other = (λ a w _ _ _ number _ _ _. cc, λ _ ids. ap row_of ids)

two_shipments-HasUniqueAwbs : HasUniqueAwbs two_shipments
two_shipments-HasUniqueAwbs =
    let s1 = codes "s1" in
    let s2 = codes "s2" in
    (
      (unnumbered-IsUnique s1 s1, (unnumbered-IsUnique s1 s2, tt)),
      ((unnumbered-IsUnique s2 s1, (unnumbered-IsUnique s2 s2, tt)), tt),
    )

done_with_first : (settle same_text (λ shop. true) job_1 numbered two_shipments).0 ≡ job_done
unfolding settle
done_with_first = refl

run-HasUniqueAwbs_example : HasUniqueAwbs (run same_text (λ shop. true) one_number two_shipments)
run-HasUniqueAwbs_example =
    run-HasUniqueAwbs same_text (λ shop. true) one_number two_shipments two_shipments-HasUniqueAwbs

first-IsWaiting : IsWaiting job_1 (row_of (codes "s1")) two_shipments
unfolding text_eq
first-IsWaiting = (refl, refl)

creates-settle_job_example :
    All
      (λ sent_id. sent_id ≢ codes "i1")
      (creates same_text (λ shop. true) (settle_job job_1 numbered ∷ one_number) two_shipments)
creates-settle_job_example =
    creates-settle_job same_text (λ shop. true) job_1 numbered (row_of (codes "s1")) one_number
      two_shipments done_with_first first-IsWaiting

-- The first shipment is confirmed, and an operator confirms it again.
abbrev confirmed_twice : List Event
confirmed_twice =
    settle_job job_1 numbered
    ∷ resolve_job job_1 (some (codes "AWB 1")) (some (codes "member"))
    ∷ []

debits-once_example :
    debits same_text (λ shop. true) (codes "shop") (codes "s1") confirmed_twice two_shipments ≤ 1
debits-once_example =
    debits-once same_text (λ shop. true) (codes "shop") (codes "s1") confirmed_twice two_shipments

test_debits :
    debits same_text (λ shop. true) (codes "shop") (codes "s1") confirmed_twice two_shipments ≡ 1
unfolding settle resolve confirm_booking update_rows text_eq
test_debits = refl

abbrev first_numbered : ConfirmArgs
first_numbered = record {
  job = job_1;
  awb = codes "AWB 1";
  charge = none;
  outcome = intent_confirmed;
  resolved_by = none;
}

confirm_booking-ConfirmOutcome_example :
    ConfirmOutcome same_text
      (λ shop. true)
      first_numbered
      two_shipments
      (confirm_booking same_text (λ shop. true) first_numbered two_shipments).0
      (confirm_booking same_text (λ shop. true) first_numbered two_shipments).1
      (confirm_booking same_text (λ shop. true) first_numbered two_shipments).2
confirm_booking-ConfirmOutcome_example =
    confirm_booking-ConfirmOutcome same_text (λ shop. true) first_numbered two_shipments
