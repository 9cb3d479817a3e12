-- ===== src/Booking/Uniqueness.antt =====
-- Rows that share no number of an account (INV-6), and the writes that keep them so.
pub mod Confirmed
pub mod Histories
use jsyxi_shipping.Prelude.{
  both_true, ◌≡◌, refl, sym, ap, ◌∙◌, inl, inr, Bool, true, false, some, List, [], ◌∷◌, Text, All,
  All-both, All-weaken, Bool-cases, find, text_eq, if◌then◌else◌,
}
use jsyxi_shipping.States.{BookingState}
use jsyxi_shipping.Booking.Model.{ShipmentRow}
use jsyxi_shipping.Booking.Worker.{has_key, is_void, update_rows, set_state}
use jsyxi_shipping.Booking.Confirm.{is_duplicate}
use jsyxi_shipping.Rules.Candidates.Store.{find-All, text_eq→≡, text_eq_refl}

-- Two rows that stand for bookings and bear one number of one account of a shop are one shipment.
abbrev pub NoClash : ShipmentRow → ShipmentRow → Type 0
NoClash s t =
    (a w : Text)
    → s.shop_id ≡ t.shop_id
    → s.courier_account_id ≡ some a
    → t.courier_account_id ≡ some a
    → s.awb_normalized ≡ some w
    → t.awb_normalized ≡ some w
    → is_void s.booking_state ≡ false
    → is_void t.booking_state ≡ false
    → s.shipment_id ≡ t.shipment_id

-- The primary key: rows of one shop and one id are the same row.
abbrev pub SameKey : ShipmentRow → ShipmentRow → Type 0
SameKey s t = s.shop_id ≡ t.shop_id → s.shipment_id ≡ t.shipment_id → s ≡ t

abbrev pub IsUnique : ShipmentRow → ShipmentRow → Type 0
IsUnique s t = NoClash s t × SameKey s t

abbrev pub AllPairs : (ShipmentRow → ShipmentRow → Type 0) → List ShipmentRow → Type 0
AllPairs P rows = All (λ s. All (P s) rows) rows

module _ (test : ShipmentRow → Bool) (set : ShipmentRow → ShipmentRow) where
  abbrev written : ShipmentRow → ShipmentRow
  written row = if test row then set row else row

  All-update_rows :
      (Q R : ShipmentRow → Type 0) (rows : List ShipmentRow)
      → ((row : ShipmentRow) → Q row → R (written row))
      → All Q rows
      → All R (update_rows test set rows)
  unfolding update_rows
  All-update_rows Q R [] keep h = tt
  All-update_rows Q R (row ∷ rows) keep (q, h) = (keep row q, All-update_rows Q R rows keep h)

  -- A relation between all rows is kept by a write that keeps it between any two, given what holds of
  -- each row.
  pub AllPairs-update_rows :
      (P : ShipmentRow → ShipmentRow → Type 0) (U : ShipmentRow → Type 0) (rows : List ShipmentRow)
      → ((s t : ShipmentRow) → P s t → U s → U t → P (written s) (written t))
      → All U rows
      → AllPairs P rows
      → AllPairs P (update_rows test set rows)
  AllPairs-update_rows P U rows keep each pairs =
      All-update_rows (λ s. All (P s) rows × U s) (λ s. All (P s) (update_rows test set rows)) rows
        (λ s (with_all, u).
          All-update_rows (λ t. P s t × U t) (P (written s)) rows (λ t (p, v). keep s t p u v)
            (All-both (P s) U rows with_all each))
        (All-both _ U rows pairs each)

-- A change of state of rows that stand for bookings.
module _ (test : ShipmentRow → Bool) (to : BookingState) where
  abbrev pub IsLive : ShipmentRow → Type 0
  IsLive row = test row ≡ true → is_void row.booking_state ≡ false

  moved : ShipmentRow → ShipmentRow
  moved row = if test row then set_state to row else row

  -- What a row that may have moved says of it as it was.
  moved-kept :
      (row : ShipmentRow)
      → IsLive row
      → (row.shop_id ≡ (moved row).shop_id)
        × (row.shipment_id ≡ (moved row).shipment_id)
        × (row.courier_account_id ≡ (moved row).courier_account_id)
        × (row.awb_normalized ≡ (moved row).awb_normalized)
        × (is_void (moved row).booking_state ≡ false → is_void row.booking_state ≡ false)
  unfolding moved
  moved-kept row live = elim (Bool-cases (test row)) [
    | inl hit ↦ rw hit (refl, refl, refl, refl, λ _. live hit)
    | inr miss ↦ rw miss (refl, refl, refl, refl, λ h. h)
  ]

  moved-IsUnique :
      (s t : ShipmentRow) → IsUnique s t → IsLive s → IsLive t → IsUnique (moved s) (moved t)
  moved-IsUnique s t (no_clash, key) was_live_s was_live_t =
      let (shop_s, id_s, account_s, awb_s, live_s) = moved-kept s was_live_s in
      let (shop_t, id_t, account_t, awb_t, live_t) = moved-kept t was_live_t in
      (
        λ a w shops acc_s acc_t ws wt ls lt.
            sym id_s
            ∙ no_clash a w (shop_s ∙ shops ∙ sym shop_t) (account_s ∙ acc_s) (account_t ∙ acc_t)
                (awb_s ∙ ws) (awb_t ∙ wt) (live_s ls) (live_t lt)
            ∙ id_t,
        λ shops ids. ap moved (key (shop_s ∙ shops ∙ sym shop_t) (id_s ∙ ids ∙ sym id_t)),
      )

  pub set_state-AllPairs :
      (rows : List ShipmentRow)
      → All IsLive rows
      → AllPairs IsUnique rows
      → AllPairs IsUnique (update_rows test (set_state to) rows)
  unfolding moved
  set_state-AllPairs rows =
      AllPairs-update_rows test (set_state to) IsUnique IsLive rows moved-IsUnique

pub key_parts :
    (shop id : Text) (row : ShipmentRow)
    → has_key shop id row ≡ true
    → (shop ≡ row.shop_id) × (id ≡ row.shipment_id)
key_parts shop id row h =
    let (same_shop, same_id) = both_true _ _ h in
    (text_eq→≡ shop row.shop_id same_shop, text_eq→≡ id row.shipment_id same_id)

-- What the transaction of a confirmation knows of every row.
module _ (shipment : ShipmentRow) (shop id awb : Text) where
  abbrev pub Known : ShipmentRow → Type 0
  Known row =
      (has_key shop id row ≡ true → shipment ≡ row)
      × (is_duplicate shipment shop id awb row ≡ false)

  pub known_key :
      (rows : List ShipmentRow)
      → AllPairs IsUnique rows
      → find (has_key shop id) rows ≡ some shipment
      → All (λ row. has_key shop id row ≡ true → shipment ≡ row) rows
  known_key rows pairs found =
      let (with_all, own) =
        find-All (λ s. All (IsUnique s) rows) (has_key shop id) rows shipment pairs found in
      let (shop_s, id_s) = key_parts shop id shipment own in
      All-weaken _ _ rows
        (λ row (_, key) h.
          let (shop_r, id_r) = key_parts shop id row h in
          key (sym shop_s ∙ shop_r) (sym id_s ∙ id_r))
        with_all

  -- A row that is no duplicate of the number clashes with the shipment in nothing but its key.
  pub no_duplicate :
      (row : ShipmentRow) (a : Text)
      → is_duplicate shipment shop id awb row ≡ false
      → shop ≡ row.shop_id
      → shipment.courier_account_id ≡ some a
      → row.courier_account_id ≡ some a
      → row.awb_normalized ≡ some awb
      → is_void row.booking_state ≡ false
      → id ≡ row.shipment_id
  no_duplicate row a free shops own_account account number live =
      elim (Bool-cases (text_eq id row.shipment_id)) [
        | inl same ↦ text_eq→≡ id row.shipment_id same
        | inr other ↦
            let e : true ≡ false =
              rw
                (
                  ← shops,
                  text_eq_refl shop,
                  account,
                  own_account,
                  text_eq_refl a,
                  number,
                  text_eq_refl awb,
                  other,
                  live,
                )
                at free in
            cc
      ]
