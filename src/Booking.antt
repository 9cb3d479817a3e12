-- ===== src/Booking.antt =====
-- src/modules/booking: the worker that books a queued shipment with its courier.
pub mod Model
pub mod Request
pub mod Worker
pub mod Confirm
pub mod Settle
pub mod History
pub mod Uniqueness
pub mod OneCreate
pub mod OneDebit
pub mod Outcomes
