-- ===== src/Booking/Request.antt =====
-- src/modules/booking/booking-worker.service.ts: the request of a create, built from the frozen snapshot.
use jsyxi_shipping.Prelude.{Option, none, some, List, [], Text}
use jsyxi_shipping.Booking.Model.{Recipient, FormulaInputs, BookingSnapshot, IntentRow}

pub record RequestRecipient : Type 0 where
  pub name : Text
  pub address_lines : List Text
  pub city : Text
  pub state : Text
  pub pincode : Text
  pub phone : Text
  pub email : Option Text

pub record CreateShipmentRequest : Type 0 where
  pub booking_intent_id : Text
  pub request_digest : Text
  pub merchant_reference : Text
  pub service_id : Text
  pub formula_inputs : FormulaInputs
  pub recipient : RequestRecipient
  pub pickup_location_id : Text

-- `?? ''`
abbrev pub or_blank : Option Text → Text
or_blank none = []
or_blank (some text) = text

abbrev pub request_recipient : Option Recipient → RequestRecipient
request_recipient none = record {
  name = [];
  address_lines = [];
  city = [];
  state = [];
  pincode = [];
  phone = [];
  email = none;
}
request_recipient (some r) = record {
  name = or_blank r.name;
  address_lines = r.address_lines;
  city = or_blank r.city;
  state = or_blank r.state;
  pincode = or_blank r.pincode;
  phone = or_blank r.phone;
  email = r.email;
}

unfoldable pub request_of : IntentRow → BookingSnapshot → CreateShipmentRequest
request_of intent snapshot = record {
  booking_intent_id = intent.booking_intent_id;
  request_digest = intent.request_digest;
  merchant_reference = intent.merchant_reference;
  service_id = or_blank snapshot.service_id;
  formula_inputs = snapshot.formula_inputs;
  recipient = request_recipient snapshot.recipient;
  pickup_location_id = or_blank snapshot.pickup_location_id;
}
