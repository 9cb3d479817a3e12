-- ===== src/Booking/Uniqueness/Confirmed.antt =====
-- No two shipments share a number of an account (INV-6), in any history of the booking worker.
use jsyxi_shipping.Prelude.{
  ◌≡◌, refl, sym, ap, ◌∙◌, inl, inr, Bool, true, List, Text, All, Bool-cases, if◌then◌else◌,
}
use jsyxi_shipping.Booking.Model.{ShipmentRow, ExpectedCostBasis}
use jsyxi_shipping.Booking.Worker.{has_key, update_rows}
use jsyxi_shipping.Booking.Confirm.{ConfirmArgs, set_confirmed}
use jsyxi_shipping.Booking.Uniqueness.{
  AllPairs, AllPairs-update_rows, IsUnique, Known, NoClash, key_parts, no_duplicate,
}

module _ (args : ConfirmArgs) (awb : Text) (basis : ExpectedCostBasis) (test : Bool)
    (shipment : ShipmentRow) where
  abbrev shop : Text
  shop = args.job.shop_id

  abbrev id : Text
  id = args.job.shipment_id

  abbrev numbered : ShipmentRow → ShipmentRow
  numbered = set_confirmed args awb basis test

  written : ShipmentRow → ShipmentRow
  written row = if has_key shop id row then numbered row else row

  written_keys :
      (row : ShipmentRow)
      → (row.shop_id ≡ (written row).shop_id)
        × (row.shipment_id ≡ (written row).shipment_id)
        × (row.courier_account_id ≡ (written row).courier_account_id)
  unfolding written
  written_keys row = elim (Bool-cases (has_key shop id row)) [
    | inl own ↦ rw own (refl, refl, refl)
    | inr other ↦ rw other (refl, refl, refl)
  ]

  -- The shipment against a row that is no duplicate of its number.
  own-NoClash :
      (s t : ShipmentRow)
      → Known shipment shop id awb s
      → Known shipment shop id awb t
      → has_key shop id s ≡ true
      → NoClash (numbered s) t
  own-NoClash s t (same, _) (_, free) own a w shops acc_s acc_t num_s num_t live_s live_t =
      let (shop_s, id_s) = key_parts shop id s own in
      sym id_s
      ∙ no_duplicate shipment shop id awb t a free (shop_s ∙ shops)
          (ap (λ (r : ShipmentRow). r.courier_account_id) (same own) ∙ acc_s) acc_t
          (num_t ∙ sym num_s) live_t

  NoClash-sym : (s t : ShipmentRow) → NoClash s t → NoClash t s
  NoClash-sym s t h a w shops acc_t acc_s num_t num_s live_t live_s =
      sym (h a w (sym shops) acc_s acc_t num_s num_t live_s live_t)

  both_own-NoClash :
      (s t : ShipmentRow)
      → has_key shop id s ≡ true
      → has_key shop id t ≡ true
      → NoClash (numbered s) (numbered t)
  both_own-NoClash s t own_s own_t a w _ _ _ _ _ _ _ =
      let (_, id_s) = key_parts shop id s own_s in
      let (_, id_t) = key_parts shop id t own_t in sym id_s ∙ id_t

  written-NoClash :
      (s t : ShipmentRow)
      → NoClash s t
      → Known shipment shop id awb s
      → Known shipment shop id awb t
      → NoClash (written s) (written t)
  unfolding written
  written-NoClash s t h known_s known_t = elim (Bool-cases (has_key shop id s)) [
    | inl own_s ↦ elim (Bool-cases (has_key shop id t)) [
      | inl own_t ↦ rw (own_s, own_t) (both_own-NoClash s t own_s own_t)
      | inr other_t ↦ rw (own_s, other_t) (own-NoClash s t known_s known_t own_s)
    ]
    | inr other_s ↦ elim (Bool-cases (has_key shop id t)) [
      | inl own_t ↦
          rw (other_s, own_t) (NoClash-sym (numbered t) s (own-NoClash t s known_t known_s own_t))
      | inr other_t ↦ rw (other_s, other_t) h
    ]
  ]

  pub set_confirmed-AllPairs :
      (rows : List ShipmentRow)
      → All (Known shipment shop id awb) rows
      → AllPairs IsUnique rows
      → AllPairs IsUnique (update_rows (has_key shop id) numbered rows)
  unfolding written
  set_confirmed-AllPairs rows known pairs =
      AllPairs-update_rows (has_key shop id) numbered IsUnique (Known shipment shop id awb) rows
        (λ s t (no_clash, key) known_s known_t.
          let (shop_s, id_s, _) = written_keys s in
          let (shop_t, id_t, _) = written_keys t in
          (
            written-NoClash s t no_clash known_s known_t,
            λ shops ids. ap written (key (shop_s ∙ shops ∙ sym shop_t) (id_s ∙ ids ∙ sym id_t)),
          ))
        known pairs
