-- ===== src/Booking/OneDebit/Histories.antt =====
-- A shipment is debited once at most (INV-12), in any history of the booking worker.
use jsyxi_shipping.Prelude.{
  ◌≡◌, ◌≤◌, ℕ, ◌+◌, ◌⊎◌, refl, inl, inr, Bool, Option, none, some, List, [], ◌∷◌, Text, arith,
  Bool-cases, is_empty, if◌then◌else◌,
}
use jsyxi_shipping.Booking.Model.{
  Db, BookingJobData, CreateAnswer, answered, circuit_open, budget_exhausted, rate_limited,
  auth_error, unsupported_capability, other_error, ResultKind, kind_confirmed, kind_failed,
  kind_outcome_unknown,
}
use jsyxi_shipping.Booking.Worker.{is_submitted, is_unknown}
use jsyxi_shipping.Booking.Settle.{resolve, settle, settle_confirmed, settle_result}
use jsyxi_shipping.Booking.History.{Event, claim_job, resolve_job, settle_job, step}
use jsyxi_shipping.Booking.OneDebit.{IsBooked, claim-IsBooked, debits_in, is_for, is_for_parts}
use jsyxi_shipping.Booking.OneDebit.Kept.{
  confirm_booking-IsBooked, mark_outcome_unknown-IsBooked, settle_failed-IsBooked,
}
use jsyxi_shipping.Booking.OneDebit.Free.{resolve-free, settle-free}
use jsyxi_shipping.Booking.OneDebit.Charged.{resolve-Debits, settle-Debits}

module _ (to_upper : Text → Text) (in_cycle : Text → Bool) (shop id : Text) where
  -- The entitlement debits of a shipment by an event, and by a history.
  abbrev pub debited : Event → Db → ℕ
  debited (claim_job job) db = 0
  debited (settle_job job answer) db =
      if is_for shop id job then debits_in (settle to_upper in_cycle job answer db).2 else 0
  debited (resolve_job job awb member) db =
      if is_for shop id job then debits_in (resolve to_upper in_cycle job awb member db).2 else 0

  abbrev pub debits : List Event → Db → ℕ
  debits [] db = 0
  debits (event ∷ events) db = debited event db + debits events (step to_upper in_cycle event db)

  settle_confirmed-IsBooked :
      (job : BookingJobData) (awb charge : Option Text) (db : Db)
      → IsBooked shop id db
      → IsBooked shop id (settle_confirmed to_upper in_cycle job awb charge db).1
  settle_confirmed-IsBooked job none charge db h = mark_outcome_unknown-IsBooked shop id job db h
  settle_confirmed-IsBooked job (some awb) charge db h = elim (Bool-cases (is_empty awb)) [
    | inl blank ↦ rw blank (mark_outcome_unknown-IsBooked shop id job db h)
    | inr given ↦ rw given (confirm_booking-IsBooked shop id to_upper in_cycle _ db h)
  ]

  settle_result-IsBooked :
      (job : BookingJobData) (kind : ResultKind) (awb charge : Option Text) (db : Db)
      → IsBooked shop id db
      → IsBooked shop id (settle_result to_upper in_cycle job kind awb charge db).1
  settle_result-IsBooked job kind_confirmed awb charge db =
      settle_confirmed-IsBooked job awb charge db
  settle_result-IsBooked job kind_failed awb charge db =
      settle_failed-IsBooked shop id job is_submitted _ _ db refl
  settle_result-IsBooked job kind_outcome_unknown awb charge db =
      mark_outcome_unknown-IsBooked shop id job db

  settle-IsBooked :
      (job : BookingJobData) (answer : CreateAnswer) (db : Db)
      → IsBooked shop id db
      → IsBooked shop id (settle to_upper in_cycle job answer db).1
  unfolding settle
  settle-IsBooked job circuit_open db h = h
  settle-IsBooked job budget_exhausted db h = h
  settle-IsBooked job rate_limited db h = h
  settle-IsBooked job auth_error db h =
      settle_failed-IsBooked shop id job is_submitted _ _ db refl h
  settle-IsBooked job unsupported_capability db h =
      settle_failed-IsBooked shop id job is_submitted _ _ db refl h
  settle-IsBooked job other_error db h = mark_outcome_unknown-IsBooked shop id job db h
  settle-IsBooked job (answered result) db h =
      settle_result-IsBooked job result.kind result.awb result.confirmed_charge db h

  resolve-IsBooked :
      (job : BookingJobData) (awb member : Option Text) (db : Db)
      → IsBooked shop id db
      → IsBooked shop id (resolve to_upper in_cycle job awb member db).1
  unfolding resolve
  resolve-IsBooked job none member db =
      settle_failed-IsBooked shop id job is_unknown _ member db refl
  resolve-IsBooked job (some awb) member db =
      confirm_booking-IsBooked shop id to_upper in_cycle _ db

  step-IsBooked :
      (event : Event) (db : Db)
      → IsBooked shop id db
      → IsBooked shop id (step to_upper in_cycle event db)
  step-IsBooked (claim_job job) db = claim-IsBooked shop id job db
  step-IsBooked (settle_job job answer) db = settle-IsBooked job answer db
  step-IsBooked (resolve_job job awb member) db = resolve-IsBooked job awb member db

  debited-free : (event : Event) (db : Db) → IsBooked shop id db → debited event db ≡ 0
  debited-free (claim_job job) db h = refl
  debited-free (settle_job job answer) db h = elim (Bool-cases (is_for shop id job)) [
    | inl own ↦ rw own (settle-free to_upper in_cycle shop id job answer db own h)
    | inr other ↦ rw other refl
  ]
  debited-free (resolve_job job awb member) db h = elim (Bool-cases (is_for shop id job)) [
    | inl own ↦ rw own (resolve-free to_upper in_cycle shop id job awb member db own h)
    | inr other ↦ rw other refl
  ]

  debits-free : (events : List Event) (db : Db) → IsBooked shop id db → debits events db ≡ 0
  debits-free [] db h = refl
  debits-free (event ∷ events) db h =
      rw
        (
          debited-free event db h,
          debits-free events (step to_upper in_cycle event db) (step-IsBooked event db h),
        )
        refl

  -- An event debits nothing, or once and leaves the shipment confirmed.
  debited-Debits :
      (event : Event) (db : Db)
      → (debited event db ≡ 0)
        ⊎ ((debited event db ≡ 1) × IsBooked shop id (step to_upper in_cycle event db))
  debited-Debits (claim_job job) db = inl refl
  debited-Debits (settle_job job answer) db = elim (Bool-cases (is_for shop id job)) [
    | inr other ↦ rw other (inl refl)
    | inl own ↦
        let (same_shop, same_id) = is_for_parts shop id job own in
        rw (own, same_shop, same_id) (settle-Debits to_upper in_cycle job answer db)
  ]
  debited-Debits (resolve_job job awb member) db = elim (Bool-cases (is_for shop id job)) [
    | inr other ↦ rw other (inl refl)
    | inl own ↦
        let (same_shop, same_id) = is_for_parts shop id job own in
        rw (own, same_shop, same_id) (resolve-Debits to_upper in_cycle job awb member db)
  ]

  -- INV-12: in no history of deliveries, answers and resolutions, in any order and from any database, is a
  -- shipment debited more than once.
  pub debits-once : (events : List Event) (db : Db) → debits events db ≤ 1
  debits-once [] db = omega arith
  debits-once (event ∷ events) db =
      let next = step to_upper in_cycle event db in
      elim (debited-Debits event db) [
        | inl free ↦ omega (arith, debits-once events next, free)
        | inr (once, booked) ↦ omega (arith, debits-free events next booked, once)
      ]
