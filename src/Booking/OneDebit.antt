-- ===== src/Booking/OneDebit.antt =====
-- The debits of a shipment (INV-12): a booking that stands confirmed is left alone, and costs no other.
pub mod Kept
pub mod Free
pub mod Charged
pub mod Histories
use jsyxi_shipping.Prelude.{
  both_true, ◌≡◌, refl, ◌∙◌, sym, inl, inr, ◌⊎◌, ℕ, suc, Bool, true, false, ◌&&◌, Option, none,
  some, List, [], ◌∷◌, arith, Text, All, Bool-cases, Option-cases, text_eq, if◌then◌else◌,
}
use jsyxi_shipping.States.{BookingState, confirmed}
use jsyxi_shipping.Booking.Model.{
  ShipmentRow, IntentRow, IntentOutcome, resolved_confirmed, Db, invalid_state, BookingJobData,
  Effect, ledger_debit,
}
use jsyxi_shipping.Booking.Worker.{
  claim, find_shipment, find_intent, has_key, is_queued, may_claim, set_state, update_rows,
}
use jsyxi_shipping.Booking.Confirm.{
  ConfirmArgs, audit_of, confirm_booking, confirm_effects, confirm_unless, may_confirm,
}
use jsyxi_shipping.Booking.Settle.{guarded_update}
use jsyxi_shipping.Rules.Candidates.Store.{find-All, text_eq→≡}

abbrev pub is_debit : Effect → Bool
is_debit ledger_debit = true
is_debit _ = false

abbrev pub debits_in : List Effect → ℕ
debits_in [] = 0
debits_in (effect ∷ effects) =
    let rest = debits_in effects in if is_debit effect then suc rest else rest

audit_of-debits : (outcome : IntentOutcome) → is_debit (audit_of outcome) ≡ false
audit_of-debits resolved_confirmed = refl
audit_of-debits _ = refl

-- A confirmation debits once at most.
pub confirm_effects-debits :
    (in_cycle : Text → Bool) (args : ConfirmArgs) (shipment : ShipmentRow) (test : Bool)
    → (debits_in (confirm_effects in_cycle args shipment test) ≡ 0)
      ⊎ (debits_in (confirm_effects in_cycle args shipment test) ≡ 1)
confirm_effects-debits in_cycle args shipment true = rw (audit_of-debits args.outcome) (inl refl)
confirm_effects-debits in_cycle args shipment false =
    elim (Bool-cases (in_cycle args.job.shop_id)) [
      | inl running ↦ rw (running, audit_of-debits args.outcome) (inr refl)
      | inr stopped ↦ rw (stopped, audit_of-debits args.outcome) (inl refl)
    ]

-- Every row of a shipment of a shop stands confirmed.
abbrev pub RowBooked : Text → Text → ShipmentRow → Type 0
RowBooked shop id row = has_key shop id row ≡ true → row.booking_state ≡ confirmed

abbrev pub IsBooked : Text → Text → Db → Type 0
IsBooked shop id db = All (RowBooked shop id) db.shipments

abbrev pub is_for : Text → Text → BookingJobData → Bool
is_for shop id job = text_eq shop job.shop_id && text_eq id job.shipment_id

module _ (shop id : Text) where
  -- A write that keeps keys and leaves what is confirmed alone.
  pub update_rows-IsBooked :
      (test : ShipmentRow → Bool) (set : ShipmentRow → ShipmentRow) (rows : List ShipmentRow)
      → ((row : ShipmentRow) → has_key shop id (set row) ≡ has_key shop id row)
      → ((row : ShipmentRow)
          → has_key shop id row ≡ true
          → row.booking_state ≡ confirmed
          → test row ≡ false)
      → All (RowBooked shop id) rows
      → All (RowBooked shop id) (update_rows test set rows)
  unfolding update_rows
  update_rows-IsBooked test set [] keys leaves h = tt
  update_rows-IsBooked test set (row ∷ rows) keys leaves (booked, h) =
      let rest = update_rows-IsBooked test set rows keys leaves h in
      elim (Bool-cases (test row)) [
        | inl hit ↦ rw hit (
          λ own.
              let before : has_key shop id row ≡ true = sym (keys row) ∙ own in
              let left : test row ≡ false = leaves row before (booked before) in cc,
          rest,
        )
        | inr miss ↦ rw miss (booked, rest)
      ]

  pub guarded-IsBooked :
      (job : BookingJobData) (from : BookingState → Bool) (to : BookingState)
      (set : IntentRow → IntentRow) (db : Db)
      → from confirmed ≡ false
      → IsBooked shop id db
      → IsBooked shop id (guarded_update job from to set db)
  guarded-IsBooked job from to set db closed =
      update_rows-IsBooked _ (set_state to) db.shipments (λ row. refl)
        (λ row own booked. rw (booked, closed) (and_false _))
    where
      and_false : (a : Bool) → (a && false) ≡ false
      and_false a = ground arith

  pub claim-IsBooked :
      (job : BookingJobData) (db : Db) → IsBooked shop id db → IsBooked shop id (claim job db).1
  unfolding claim
  claim-IsBooked job db h = elim (Option-cases (find_shipment job db)) [
    | inl gone ↦ rw (claim, gone) h
    | inr (shipment, found) ↦ elim (Option-cases (find_intent job db)) [
      | inl gone ↦ rw (claim, found, gone) h
      | inr (intent, there) ↦ elim (Bool-cases (may_claim intent shipment)) [
        | inr refused ↦ rw (claim, found, there, refused) h
        | inl claimed ↦ elim (Bool-cases (is_queued shipment.booking_state)) [
          | inl waiting ↦
              rw (claim, found, there, claimed, waiting)
                (guarded-IsBooked job is_queued _ (λ row. row) db refl h)
          | inr resumed ↦ rw (claim, found, there, claimed, resumed) h
        ]
      ]
    ]
  ]

-- A write to every row of the shipment that leaves each confirmed.
confirmed-IsBooked :
    (shop id : Text) (set : ShipmentRow → ShipmentRow)
    → ((row : ShipmentRow) → (set row).booking_state ≡ confirmed)
    → (rows : List ShipmentRow) → All (RowBooked shop id) (update_rows (has_key shop id) set rows)
unfolding update_rows
confirmed-IsBooked shop id set confirms [] = tt
confirmed-IsBooked shop id set confirms (row ∷ rows) = elim (Bool-cases (has_key shop id row)) [
  | inl hit ↦ rw hit (λ _. confirms row, confirmed-IsBooked shop id set confirms rows)
  | inr miss ↦ rw miss (
    λ own. let e : true ≡ false = sym own ∙ miss in cc,
    confirmed-IsBooked shop id set confirms rows,
  )
]

pub is_for_parts :
    (shop id : Text) (job : BookingJobData)
    → is_for shop id job ≡ true
    → (shop ≡ job.shop_id) × (id ≡ job.shipment_id)
is_for_parts shop id job h =
    let (same_shop, same_id) = both_true _ _ h in
    (text_eq→≡ shop job.shop_id same_shop, text_eq→≡ id job.shipment_id same_id)

module _ (to_upper : Text → Text) (in_cycle : Text → Bool) where
  -- A confirmation of what stands confirmed is refused.
  pub confirm_booking-refused :
      (args : ConfirmArgs) (db : Db)
      → IsBooked args.job.shop_id args.job.shipment_id db
      → confirm_booking to_upper in_cycle args db ≡ (invalid_state, db, [])
  unfolding confirm_booking
  confirm_booking-refused args db h = elim (Option-cases (find_shipment args.job db)) [
    | inl gone ↦ rw (confirm_booking, gone) refl
    | inr (shipment, found) ↦
        let (booked, own) = find-All _ _ db.shipments shipment h found in
        let refused : may_confirm shipment ≡ false = rw (booked own) refl in
        rw (confirm_booking, found, refused) refl
  ]

  -- A confirmation that debits leaves the shipment confirmed.
  pub confirm_unless-Debits :
      (args : ConfirmArgs) (shipment : ShipmentRow) (dupe : Option ShipmentRow) (db : Db)
      → (debits_in (confirm_unless to_upper in_cycle args shipment dupe db).2 ≡ 0)
        ⊎ ((debits_in (confirm_unless to_upper in_cycle args shipment dupe db).2 ≡ 1)
            × IsBooked args.job.shop_id args.job.shipment_id
                (confirm_unless to_upper in_cycle args shipment dupe db).1)
  confirm_unless-Debits args shipment (some dupe) db = inl refl
  confirm_unless-Debits args shipment none db =
      elim (confirm_effects-debits in_cycle args shipment _) [
        | inl free ↦ inl free
        | inr once ↦ inr (
          once,
          confirmed-IsBooked args.job.shop_id args.job.shipment_id _ (λ row. refl) db.shipments,
        )
      ]

  pub confirm_booking-Debits :
      (args : ConfirmArgs) (db : Db)
      → (debits_in (confirm_booking to_upper in_cycle args db).2 ≡ 0)
        ⊎ ((debits_in (confirm_booking to_upper in_cycle args db).2 ≡ 1)
            × IsBooked args.job.shop_id args.job.shipment_id
                (confirm_booking to_upper in_cycle args db).1)
  unfolding confirm_booking
  confirm_booking-Debits args db = elim (Option-cases (find_shipment args.job db)) [
    | inl gone ↦ rw (confirm_booking, gone) (inl refl)
    | inr (shipment, found) ↦ elim (Bool-cases (may_confirm shipment)) [
      | inl may ↦ rw (confirm_booking, found, may) (confirm_unless-Debits args shipment _ db)
      | inr refused ↦ rw (confirm_booking, found, refused) (inl refl)
    ]
  ]
