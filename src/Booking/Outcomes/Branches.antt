-- ===== src/Booking/Outcomes/Branches.antt =====
-- What a confirmation does on each of its branches, and when it takes which (INV-6, INV-19, INV-20).
use mathlib.Core.List.{Mem}
use jsyxi_shipping.Prelude.{
  ◌≡◌, ◌≢◌, ◌⊎◌, refl, inl, inr, Bool, false, not, ◌&&◌, Option, none, some, List, [], ◌∷◌, ◌++◌,
  Text, All, All-weaken, Bool-cases, Option-cases, find, find-none,
}
use jsyxi_shipping.States.{confirmed, failed, outcome_unknown, submitted}
use jsyxi_shipping.Booking.Model.{
  ShipmentRow, DlqItem, Db, Effect, ConfirmResult, confirmed_as, invalid_state,
  duplicate_awb_quarantined,
}
use jsyxi_shipping.Booking.Worker.{find_shipment, has_key, set_state}
use jsyxi_shipping.Booking.Confirm.{
  ConfirmArgs, account_is_test, confirm_booking, confirm_unless, is_account, is_duplicate,
  may_confirm, normalize_awb, set_confirmed,
}
use jsyxi_shipping.Booking.Uniqueness.{no_duplicate}
use jsyxi_shipping.Booking.Outcomes.{
  Writes, AllOf, IsConfirmable, Bears, IsTestMode, numbers, update_rows-own, update_rows-numbers,
  find-Mem, live_state, waiting_state, other_state, duplicate-Bears, account-IsTestMode,
  confirm_effects-Writes,
}

module _ (to_upper : Text → Text) (in_cycle : Text → Bool) where
  -- CONFIRMED with the number in its normal form and the mode of the account, where no other shipment bears
  -- the number; what is debited and written to Shopify goes by the mode.
  abbrev pub IsConfirmation : ConfirmArgs → Db → ShipmentRow → Db → List Effect → Type 0
  IsConfirmation args db shipment after effects =
      let awb = normalize_awb to_upper args.awb in
      All (λ row. ¬ (Bears args shipment awb row)) db.shipments
      × ((test : Bool) × IsTestMode args db shipment test
          × AllOf args
              (λ row.
                (row.booking_state ≡ confirmed)
                × (row.awb_normalized ≡ some awb)
                × (row.is_test ≡ test))
              after
          × Writes (not test && in_cycle args.job.shop_id) (not test) effects)

  -- FAILED, with the conflict kept for inspection, where another shipment bears the number.
  abbrev pub IsQuarantine : ConfirmArgs → Db → ShipmentRow → Db → List Effect → Type 0
  IsQuarantine args db shipment after effects =
      (dupe : ShipmentRow) × Mem dupe db.shipments
      × Bears args shipment (normalize_awb to_upper args.awb) dupe
      × AllOf args (λ row. row.booking_state ≡ failed) after
      × (numbers after ≡ numbers db)
      × Writes false false effects
      × ((item : DlqItem) × (after.dlq ≡ db.dlq ++ item ∷ [])
          × (item.shipment_id ≡ args.job.shipment_id)
          × (item.conflicting_shipment_id ≡ dupe.shipment_id))

  -- No row of the key, or one that waits for nothing.
  abbrev pub IsUnconfirmable : ConfirmArgs → Db → Type 0
  IsUnconfirmable args db =
      (find (has_key args.job.shop_id args.job.shipment_id) db.shipments ≡ none)
      ⊎ ((shipment : ShipmentRow) × (find (has_key args.job.shop_id args.job.shipment_id)
              db.shipments
            ≡ some shipment)
          × (shipment.booking_state ≢ submitted)
          × (shipment.booking_state ≢ outcome_unknown))

  -- What each answer says of the database before and after, and of the effects.
  abbrev pub ConfirmOutcome : ConfirmArgs → Db → ConfirmResult → Db → List Effect → Type 0
  ConfirmOutcome args db (confirmed_as awb) after effects =
      (awb ≡ normalize_awb to_upper args.awb)
      × ((shipment : ShipmentRow) × IsConfirmable args db shipment
          × IsConfirmation args db shipment after effects)
  ConfirmOutcome args db duplicate_awb_quarantined after effects =
      (shipment : ShipmentRow) × IsConfirmable args db shipment
      × IsQuarantine args db shipment after effects
  ConfirmOutcome args db invalid_state after effects =
      IsUnconfirmable args db × (after ≡ db) × (effects ≡ [])

  not_duplicate :
      (args : ConfirmArgs) (shipment row : ShipmentRow) (awb : Text)
      → is_duplicate shipment args.job.shop_id args.job.shipment_id awb row ≡ false
      → ¬ (Bears args shipment awb row)
  not_duplicate args shipment row awb free (account, shop, own, theirs, number, other, live) =
      other (
        no_duplicate shipment args.job.shop_id args.job.shipment_id awb row account free shop own
          theirs number (live_state row.booking_state live))

  confirm_unless-ConfirmOutcome :
      (args : ConfirmArgs) (shipment : ShipmentRow) (dupe : Option ShipmentRow) (db : Db)
      → find
          (is_duplicate shipment args.job.shop_id args.job.shipment_id
            (normalize_awb to_upper args.awb))
          db.shipments
        ≡ dupe
      → IsConfirmable args db shipment
      → ConfirmOutcome args db
          (confirm_unless to_upper in_cycle args shipment dupe db).0
          (confirm_unless to_upper in_cycle args shipment dupe db).1
          (confirm_unless to_upper in_cycle args shipment dupe db).2
  confirm_unless-ConfirmOutcome args shipment (some dupe) db searched may =
      let (there, hit) =
        find-Mem
          (is_duplicate shipment args.job.shop_id args.job.shipment_id
            (normalize_awb to_upper args.awb))
          db.shipments dupe searched in
      (
        shipment,
        may,
        (
          dupe,
          there,
          duplicate-Bears args shipment (normalize_awb to_upper args.awb) dupe hit,
          update_rows-own args.job.shop_id args.job.shipment_id (set_state failed)
              (λ row. row.booking_state ≡ failed) db.shipments (λ row. refl),
          update_rows-numbers _ (set_state failed) db.shipments (λ row. refl),
          (refl, refl),
          (_, refl, refl, refl),
        ),
      )
  confirm_unless-ConfirmOutcome args shipment none db searched may =
      let awb = normalize_awb to_upper args.awb in
      let test = account_is_test (find (is_account args.job.shop_id shipment) db.accounts) in
      (
        refl,
        (
          shipment,
          may,
          (
            All-weaken _ _ db.shipments (λ row free. not_duplicate args shipment row awb free)
                (find-none _ db.shipments searched),
            (
              test,
              account-IsTestMode args db shipment,
              update_rows-own args.job.shop_id args.job.shipment_id (set_confirmed args awb _ test)
                  (λ row.
                    (row.booking_state ≡ confirmed)
                    × (row.awb_normalized ≡ some awb)
                    × (row.is_test ≡ test))
                  db.shipments (λ row. (refl, refl, refl)),
              confirm_effects-Writes in_cycle args shipment test,
            ),
          ),
        ),
      )

  -- INV-6, INV-19, INV-20: a confirmation answers with the normalized number only where the shipment waits
  -- for its answer or a resolution and no other live shipment bears the number of the account; then it is
  -- CONFIRMED with it and marked with the account's mode, a debit follows just where the mode is not TEST and
  -- the shop is in a cycle, and a fulfillment just where it is not TEST. It quarantines only where another live
  -- shipment bears the number; then the shipment is FAILED, every number is as it was, nothing is debited or
  -- fulfilled, and the conflict is kept. It refuses only a shipment that is missing or in another state, and
  -- then changes nothing and has no effect.
  pub confirm_booking-ConfirmOutcome :
      (args : ConfirmArgs) (db : Db)
      → ConfirmOutcome args db
          (confirm_booking to_upper in_cycle args db).0
          (confirm_booking to_upper in_cycle args db).1
          (confirm_booking to_upper in_cycle args db).2
  unfolding confirm_booking
  confirm_booking-ConfirmOutcome args db = elim (Option-cases (find_shipment args.job db)) [
    | inl gone ↦ rw (confirm_booking, gone) (inl gone, refl, refl)
    | inr (shipment, found) ↦ elim (Bool-cases (may_confirm shipment)) [
      | inl may ↦
          rw (confirm_booking, found, may)
            (confirm_unless-ConfirmOutcome args shipment _ db refl
              (found, waiting_state shipment.booking_state may))
      | inr refused ↦
          let (unsent, known) = other_state shipment.booking_state refused in
          rw (confirm_booking, found, refused) (inr (shipment, found, unsent, known), refl, refl)
    ]
  ]
