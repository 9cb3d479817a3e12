-- ===== src/Booking/OneDebit/Free.antt =====
-- A shipment that stands confirmed is not debited, whatever the answer or the resolution (INV-12).
use jsyxi_shipping.Prelude.{
  ◌≡◌, refl, inl, inr, Bool, true, Option, none, some, Text, Bool-cases, is_empty,
}
use jsyxi_shipping.Booking.Model.{
  Db, BookingJobData, CreateAnswer, answered, circuit_open, budget_exhausted, rate_limited,
  auth_error, unsupported_capability, other_error, ResultKind, kind_confirmed, kind_failed,
  kind_outcome_unknown,
}
use jsyxi_shipping.Booking.Confirm.{ConfirmArgs, confirm_booking}
use jsyxi_shipping.Booking.Settle.{resolve, settle, settle_confirmed, settle_result}
use jsyxi_shipping.Booking.OneDebit.{IsBooked, debits_in, is_for}
use jsyxi_shipping.Booking.OneDebit.Kept.{own_refused}

module _ (to_upper : Text → Text) (in_cycle : Text → Bool) (shop id : Text) where
  confirm_booking-free :
      (args : ConfirmArgs) (db : Db)
      → is_for shop id args.job ≡ true
      → IsBooked shop id db
      → debits_in (confirm_booking to_upper in_cycle args db).2 ≡ 0
  confirm_booking-free args db own h = rw (own_refused shop id to_upper in_cycle args db own h) refl

  settle_confirmed-free :
      (job : BookingJobData) (awb charge : Option Text) (db : Db)
      → is_for shop id job ≡ true
      → IsBooked shop id db
      → debits_in (settle_confirmed to_upper in_cycle job awb charge db).2 ≡ 0
  settle_confirmed-free job none charge db own h = refl
  settle_confirmed-free job (some awb) charge db own h = elim (Bool-cases (is_empty awb)) [
    | inl blank ↦ rw blank refl
    | inr given ↦ rw given (confirm_booking-free _ db own h)
  ]

  settle_result-free :
      (job : BookingJobData) (kind : ResultKind) (awb charge : Option Text) (db : Db)
      → is_for shop id job ≡ true
      → IsBooked shop id db
      → debits_in (settle_result to_upper in_cycle job kind awb charge db).2 ≡ 0
  settle_result-free job kind_confirmed awb charge db own h =
      settle_confirmed-free job awb charge db own h
  settle_result-free job kind_failed awb charge db own h = refl
  settle_result-free job kind_outcome_unknown awb charge db own h = refl

  pub settle-free :
      (job : BookingJobData) (answer : CreateAnswer) (db : Db)
      → is_for shop id job ≡ true
      → IsBooked shop id db
      → debits_in (settle to_upper in_cycle job answer db).2 ≡ 0
  unfolding settle
  settle-free job (answered result) db own h =
      settle_result-free job result.kind result.awb result.confirmed_charge db own h
  settle-free job circuit_open db own h = refl
  settle-free job budget_exhausted db own h = refl
  settle-free job rate_limited db own h = refl
  settle-free job auth_error db own h = refl
  settle-free job unsupported_capability db own h = refl
  settle-free job other_error db own h = refl

  pub resolve-free :
      (job : BookingJobData) (awb member : Option Text) (db : Db)
      → is_for shop id job ≡ true
      → IsBooked shop id db
      → debits_in (resolve to_upper in_cycle job awb member db).2 ≡ 0
  unfolding resolve
  resolve-free job none member db own h = refl
  resolve-free job (some awb) member db own h = confirm_booking-free _ db own h
