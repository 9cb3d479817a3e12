-- ===== src/Booking/Outcomes.antt =====
-- What the branches of a confirmation go by and leave: the rows that bear a number, the mode of an account,
-- and the effects.
pub mod Branches
use mathlib.Core.Option.{some-injective}
use mathlib.Core.List.{Mem, mem-cons_self, mem-cons_of_mem}
use jsyxi_shipping.Prelude.{
  ◌≡◌, ◌≢◌, ◌⊎◌, refl, sym, ap, subst, ◌∙◌, inl, inr, Bool, true, false, not, ◌&&◌, ◌||◌, Option,
  none, some, List, [], ◌∷◌, arith, map, Text, All, All-weaken, any, both_true, Bool-cases,
  Option-cases, find, find-none, text_eq,
}
use jsyxi_shipping.States.{BookingState, outcome_unknown, submitted, void}
use jsyxi_shipping.Booking.Model.{
  ShipmentRow, AccountRow, IntentOutcome, resolved_confirmed, Db, Effect, fulfillment_create,
}
use jsyxi_shipping.Booking.Worker.{has_key, is_submitted, is_unknown, is_void, update_rows}
use jsyxi_shipping.Booking.Confirm.{
  ConfirmArgs, account_is_test, audit_of, confirm_effects, is_account, is_duplicate, same_account,
}
use jsyxi_shipping.Booking.OneDebit.{is_debit}
use jsyxi_shipping.Rules.Candidates.Store.{text_eq_refl, text_eq→≡}

abbrev pub is_fulfillment : Effect → Bool
is_fulfillment fulfillment_create = true
is_fulfillment _ = false

-- Whether an entitlement is debited, and a fulfillment written to Shopify.
abbrev pub Writes : Bool → Bool → List Effect → Type 0
Writes debit fulfillment effects =
    (any is_debit effects ≡ debit) × (any is_fulfillment effects ≡ fulfillment)

abbrev pub AllOf : ConfirmArgs → (ShipmentRow → Type 0) → Db → Type 0
AllOf args Q db =
    All (λ row. has_key args.job.shop_id args.job.shipment_id row ≡ true → Q row) db.shipments

-- The shipment that is read: of the key, and it waits for its answer or for a resolution.
abbrev pub IsConfirmable : ConfirmArgs → Db → ShipmentRow → Type 0
IsConfirmable args db shipment =
    (find (has_key args.job.shop_id args.job.shipment_id) db.shipments ≡ some shipment)
    × ((shipment.booking_state ≡ submitted) ⊎ (shipment.booking_state ≡ outcome_unknown))

-- A row of another shipment that is not VOID bears the number of the shipment's account.
abbrev pub Bears : ConfirmArgs → ShipmentRow → Text → ShipmentRow → Type 0
Bears args shipment awb row =
    (account : Text) × (args.job.shop_id ≡ row.shop_id)
    × (shipment.courier_account_id ≡ some account)
    × (row.courier_account_id ≡ some account)
    × (row.awb_normalized ≡ some awb)
    × (args.job.shipment_id ≢ row.shipment_id)
    × (row.booking_state ≢ void)

abbrev pub IsOwnAccount : ConfirmArgs → ShipmentRow → AccountRow → Type 0
IsOwnAccount args shipment account =
    (shipment.courier_account_id ≡ some account.courier_account_id)
    × (account.shop_id ≡ args.job.shop_id)

-- The mode of the shipment's account is TEST, or LIVE; it is LIVE where the shop has no such account.
abbrev pub IsTestMode : ConfirmArgs → Db → ShipmentRow → Bool → Type 0
IsTestMode args db shipment true =
    (account : AccountRow) × Mem account db.accounts
    × IsOwnAccount args shipment account
    × (account.is_test_mode ≡ true)
IsTestMode args db shipment false =
    All (λ account. ¬ (IsOwnAccount args shipment account)) db.accounts
    ⊎ ((account : AccountRow) × Mem account db.accounts
        × IsOwnAccount args shipment account
        × (account.is_test_mode ≡ false))

abbrev pub numbers : Db → List (Option Text)
numbers db = map (λ (row : ShipmentRow). row.awb_normalized) db.shipments

-- Rows of the shipment, after a write to them.
pub update_rows-own :
    (shop id : Text) (set : ShipmentRow → ShipmentRow) (Q : ShipmentRow → Type 0)
    (rows : List ShipmentRow)
    → ((row : ShipmentRow) → Q (set row))
    → All (λ row. has_key shop id row ≡ true → Q row) (update_rows (has_key shop id) set rows)
unfolding update_rows
update_rows-own shop id set Q [] holds = tt
update_rows-own shop id set Q (row ∷ rows) holds = elim (Bool-cases (has_key shop id row)) [
  | inl hit ↦ rw hit (λ _. holds row, update_rows-own shop id set Q rows holds)
  | inr miss ↦
      rw miss (
        λ own. let e : true ≡ false = sym own ∙ miss in cc,
        update_rows-own shop id set Q rows holds,
      )
]

pub update_rows-numbers :
    (test : ShipmentRow → Bool) (set : ShipmentRow → ShipmentRow) (rows : List ShipmentRow)
    → ((row : ShipmentRow) → (set row).awb_normalized ≡ row.awb_normalized)
    → map (λ (row : ShipmentRow). row.awb_normalized) (update_rows test set rows)
      ≡ map (λ (row : ShipmentRow). row.awb_normalized) rows
unfolding update_rows
update_rows-numbers test set [] keeps = refl
update_rows-numbers test set (row ∷ rows) keeps = elim (Bool-cases (test row)) [
  | inl hit ↦ rw (hit, keeps row, update_rows-numbers test set rows keeps) refl
  | inr miss ↦ rw (miss, update_rows-numbers test set rows keeps) refl
]

pub find-Mem {ℓ} :
    {A : Type ℓ} (test : A → Bool) (xs : List A) (x : A)
    → find test xs ≡ some x
    → Mem x xs × (test x ≡ true)
find-Mem test [] x e = cc
find-Mem test (y ∷ ys) x e = elim (Bool-cases (test y)) [
  | inl hit ↦
      let same : y ≡ x = some-injective _ _ (rw hit at e) in
      subst (λ z. Mem z (y ∷ ys) × (test z ≡ true)) same (mem-cons_self, hit)
  | inr miss ↦
      let (there, hit) = find-Mem test ys x (rw miss at e) in (mem-cons_of_mem y there, hit)
]

void_state : (s : BookingState) → is_void s ≡ false → s ≢ void
void_state void h e = cc
void_state _ h e = cc

pub live_state : (s : BookingState) → s ≢ void → is_void s ≡ false
live_state void h = absurd (h refl)
live_state _ h = refl

pub waiting_state :
    (s : BookingState)
    → (is_submitted s || is_unknown s) ≡ true
    → (s ≡ submitted) ⊎ (s ≡ outcome_unknown)
waiting_state submitted h = inl refl
waiting_state outcome_unknown h = inr refl
waiting_state _ h = cc

pub other_state :
    (s : BookingState)
    → (is_submitted s || is_unknown s) ≡ false
    → (s ≢ submitted) × (s ≢ outcome_unknown)
other_state submitted h = cc
other_state outcome_unknown h = cc
other_state _ h = (λ e. cc, λ e. cc)

same_account-parts :
    (a b : Option Text)
    → same_account a b ≡ true
    → (account : Text) × (a ≡ some account) × (b ≡ some account)
same_account-parts none b h = cc
same_account-parts (some a) none h = cc
same_account-parts (some a) (some b) h = (a, refl, ap some (sym (text_eq→≡ a b h)))

text_differs : (s t : Text) → text_eq s t ≡ false → s ≢ t
text_differs s t h e = let e' : true ≡ false = sym (text_eq_refl s) ∙ ap (text_eq s) e ∙ h in cc

pub duplicate-Bears :
    (args : ConfirmArgs) (shipment : ShipmentRow) (awb : Text) (row : ShipmentRow)
    → is_duplicate shipment args.job.shop_id args.job.shipment_id awb row ≡ true
    → Bears args shipment awb row
duplicate-Bears args shipment awb row h =
    let (h3, lives) = both_true _ _ h in
    let (h2, others) = both_true _ _ h3 in
    let (h1, numbered) = both_true _ _ h2 in
    let (shops, accounts) = both_true _ _ h1 in
    let (account, theirs, own) =
      same_account-parts row.courier_account_id shipment.courier_account_id accounts in
    let (number, bears, same) = same_account-parts row.awb_normalized (some awb) numbered in
    (
      account,
      text_eq→≡ args.job.shop_id row.shop_id shops,
      own,
      theirs,
      bears ∙ sym same,
      text_differs args.job.shipment_id row.shipment_id (not_true _ others),
      void_state row.booking_state (not_true _ lives),
    )
  where
    not_true : (b : Bool) → not b ≡ true → b ≡ false
    not_true b h = ground arith

account_parts :
    (args : ConfirmArgs) (shipment : ShipmentRow) (account : AccountRow)
    → is_account args.job.shop_id shipment account ≡ true
    → IsOwnAccount args shipment account
account_parts args shipment account h =
    let (accounts, shops) = both_true _ _ h in
    let (id, own, theirs) =
      same_account-parts (some account.courier_account_id) shipment.courier_account_id accounts in
    (theirs ∙ sym own, text_eq→≡ account.shop_id args.job.shop_id shops)

foreign_account :
    (args : ConfirmArgs) (shipment : ShipmentRow) (account : AccountRow)
    → is_account args.job.shop_id shipment account ≡ false
    → ¬ (IsOwnAccount args shipment account)
foreign_account args shipment account h (own, shop) =
    let e : true ≡ false =
      rw (own, shop, text_eq_refl account.courier_account_id, text_eq_refl args.job.shop_id) at h in
    cc

mode-IsTestMode :
    (args : ConfirmArgs) (db : Db) (shipment : ShipmentRow) (test : Bool) (account : AccountRow)
    → Mem account db.accounts
    → IsOwnAccount args shipment account
    → account.is_test_mode ≡ test
    → IsTestMode args db shipment test
mode-IsTestMode args db shipment true account there own mode = (account, there, own, mode)
mode-IsTestMode args db shipment false account there own mode = inr (account, there, own, mode)

pub account-IsTestMode :
    (args : ConfirmArgs) (db : Db) (shipment : ShipmentRow)
    → IsTestMode args db shipment
        (account_is_test (find (is_account args.job.shop_id shipment) db.accounts))
account-IsTestMode args db shipment =
    elim (Option-cases (find (is_account args.job.shop_id shipment) db.accounts)) [
      | inl none_own ↦ rw none_own (
          inl (
            All-weaken _ _ db.accounts (foreign_account args shipment)
              (find-none (is_account args.job.shop_id shipment) db.accounts none_own)))
      | inr (account, found) ↦
          let (there, hit) =
            find-Mem (is_account args.job.shop_id shipment) db.accounts account found in
          rw found (
            mode-IsTestMode args db shipment account.is_test_mode account there
              (account_parts args shipment account hit) refl)
    ]

audit-Writes :
    (outcome : IntentOutcome)
    → (is_debit (audit_of outcome) ≡ false) × (is_fulfillment (audit_of outcome) ≡ false)
audit-Writes resolved_confirmed = (refl, refl)
audit-Writes _ = (refl, refl)

pub confirm_effects-Writes :
    (in_cycle : Text → Bool) (args : ConfirmArgs) (shipment : ShipmentRow) (test : Bool)
    → Writes
        (not test && in_cycle args.job.shop_id)
        (not test)
        (confirm_effects in_cycle args shipment test)
confirm_effects-Writes in_cycle args shipment true =
    let (no_debit, no_fulfillment) = audit-Writes args.outcome in
    (rw no_debit refl, rw no_fulfillment refl)
confirm_effects-Writes in_cycle args shipment false =
    let (no_debit, no_fulfillment) = audit-Writes args.outcome in
    elim (Bool-cases (in_cycle args.job.shop_id)) [
      | inl running ↦ rw running (refl, rw no_fulfillment refl)
      | inr stopped ↦ rw stopped (rw no_debit refl, rw no_fulfillment refl)
    ]
