-- ===== src/Booking/History.antt =====
-- Histories of a database under the booking worker: the transactions of any number of deliveries and
-- resolutions, in any order, each for any job and with any answer.
use jsyxi_shipping.Prelude.{Bool, Option, none, some, List, [], ◌∷◌, ◌++◌, Text}
use jsyxi_shipping.Booking.Model.{BookingJobData, CreateAnswer, Db}
use jsyxi_shipping.Booking.Request.{CreateShipmentRequest}
use jsyxi_shipping.Booking.Worker.{claim, create_request}
use jsyxi_shipping.Booking.Settle.{resolve, settle}

pub data Event : Type 0 where
  claim_job : BookingJobData → Event
  settle_job : BookingJobData → CreateAnswer → Event
  resolve_job : BookingJobData → Option Text → Option Text → Event

-- The intent of a request that is sent.
abbrev pub created_by : Option CreateShipmentRequest → List Text
created_by none = []
created_by (some request) = request.booking_intent_id ∷ []

module _ (to_upper : Text → Text) (in_cycle : Text → Bool) where
  abbrev pub step : Event → Db → Db
  step (claim_job job) db = (claim job db).1
  step (settle_job job answer) db = (settle to_upper in_cycle job answer db).1
  step (resolve_job job awb member) db = (resolve to_upper in_cycle job awb member db).1

  abbrev pub run : List Event → Db → Db
  run [] db = db
  run (event ∷ events) db = run events (step event db)

  -- The intents whose creates an event, and a history, sends to the courier.
  abbrev pub sent : Event → Db → List Text
  sent (claim_job job) db = created_by (create_request (claim job db).0)
  sent _ db = []

  abbrev pub creates : List Event → Db → List Text
  creates [] db = []
  creates (event ∷ events) db = sent event db ++ creates events (step event db)
