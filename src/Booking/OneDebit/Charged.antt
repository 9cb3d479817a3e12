-- ===== src/Booking/OneDebit/Charged.antt =====
-- An answer or a resolution debits once at most, and then the shipment stands confirmed (INV-12).
use jsyxi_shipping.Prelude.{
  ◌≡◌, ◌⊎◌, refl, inl, inr, Bool, Option, none, some, Text, Bool-cases, is_empty,
}
use jsyxi_shipping.Booking.Model.{
  Db, BookingJobData, CreateAnswer, answered, circuit_open, budget_exhausted, rate_limited,
  auth_error, unsupported_capability, other_error, ResultKind, kind_confirmed, kind_failed,
  kind_outcome_unknown,
}
use jsyxi_shipping.Booking.Settle.{resolve, settle, settle_confirmed, settle_result}
use jsyxi_shipping.Booking.OneDebit.{IsBooked, confirm_booking-Debits, debits_in}

module _ (to_upper : Text → Text) (in_cycle : Text → Bool) where
  settle_confirmed-Debits :
      (job : BookingJobData) (awb charge : Option Text) (db : Db)
      → (debits_in (settle_confirmed to_upper in_cycle job awb charge db).2 ≡ 0)
        ⊎ ((debits_in (settle_confirmed to_upper in_cycle job awb charge db).2 ≡ 1)
            × IsBooked job.shop_id job.shipment_id
                (settle_confirmed to_upper in_cycle job awb charge db).1)
  settle_confirmed-Debits job none charge db = inl refl
  settle_confirmed-Debits job (some awb) charge db = elim (Bool-cases (is_empty awb)) [
    | inl blank ↦ rw blank (inl refl)
    | inr given ↦ rw given (confirm_booking-Debits to_upper in_cycle _ db)
  ]

  settle_result-Debits :
      (job : BookingJobData) (kind : ResultKind) (awb charge : Option Text) (db : Db)
      → (debits_in (settle_result to_upper in_cycle job kind awb charge db).2 ≡ 0)
        ⊎ ((debits_in (settle_result to_upper in_cycle job kind awb charge db).2 ≡ 1)
            × IsBooked job.shop_id job.shipment_id
                (settle_result to_upper in_cycle job kind awb charge db).1)
  settle_result-Debits job kind_confirmed awb charge db = settle_confirmed-Debits job awb charge db
  settle_result-Debits job kind_failed awb charge db = inl refl
  settle_result-Debits job kind_outcome_unknown awb charge db = inl refl

  pub settle-Debits :
      (job : BookingJobData) (answer : CreateAnswer) (db : Db)
      → (debits_in (settle to_upper in_cycle job answer db).2 ≡ 0)
        ⊎ ((debits_in (settle to_upper in_cycle job answer db).2 ≡ 1)
            × IsBooked job.shop_id job.shipment_id (settle to_upper in_cycle job answer db).1)
  unfolding settle
  settle-Debits job (answered result) db =
      settle_result-Debits job result.kind result.awb result.confirmed_charge db
  settle-Debits job circuit_open db = inl refl
  settle-Debits job budget_exhausted db = inl refl
  settle-Debits job rate_limited db = inl refl
  settle-Debits job auth_error db = inl refl
  settle-Debits job unsupported_capability db = inl refl
  settle-Debits job other_error db = inl refl

  pub resolve-Debits :
      (job : BookingJobData) (awb member : Option Text) (db : Db)
      → (debits_in (resolve to_upper in_cycle job awb member db).2 ≡ 0)
        ⊎ ((debits_in (resolve to_upper in_cycle job awb member db).2 ≡ 1)
            × IsBooked job.shop_id job.shipment_id (resolve to_upper in_cycle job awb member db).1)
  unfolding resolve
  resolve-Debits job none member db = inl refl
  resolve-Debits job (some awb) member db = confirm_booking-Debits to_upper in_cycle _ db
