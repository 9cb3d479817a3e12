-- ===== src/Derivation/Payment/Modes.antt =====
-- When an order is COD, prepaid or unresolved.
use jsyxi_shipping.Prelude.{
  ◌<◌, ◌≡◌, refl, subst, ◌⊎◌, inl, inr, Bool, true, false, not, ◌&&◌, Option, none, some, List, [],
  ◌∷◌, arith, Text, All, any, is_empty, Bool-cases, if◌then◌else◌,
}
use jsyxi_shipping.Prelude.Int.{pos, ltb_ℤ, pos_part}
use jsyxi_shipping.Result.{ok, >>=-eq-ok, ok-injective}
use jsyxi_shipping.Money.{Paise, rupees_to_paise}
use jsyxi_shipping.Derivation.Payment.{
  PaymentMode, prepaid, cod, unresolved, PaymentModeInput, is_cod_gateway, mode_by_balance,
  derive_payment_mode,
}

-- The outstanding amount is known and is `paise`.
abbrev pub Owes : PaymentModeInput → Paise → Type 0
Owes input paise = (t : Text) × (input.cod_outstanding ≡ some t) × (rupees_to_paise t ≡ ok paise)

abbrev pub AllCod : PaymentModeInput → Type 0
AllCod input = All (λ g. is_cod_gateway input g ≡ true) input.gateway_names

abbrev pub NoneCod : PaymentModeInput → Type 0
NoneCod input = All (λ g. is_cod_gateway input g ≡ false) input.gateway_names

-- The rule of each mode.
abbrev pub ModeRule : PaymentModeInput → PaymentMode → Type 0
ModeRule input cod =
    (is_empty input.gateway_names ≡ false)
    × AllCod input
    × ((paise : Paise) × Owes input paise × (0 < pos_part paise))
ModeRule input prepaid =
    (is_empty input.gateway_names ≡ false)
    × (AllCod input ⊎ NoneCod input)
    × ((paise : Paise) × Owes input paise × (pos_part paise ≡ 0))
ModeRule input unresolved =
    (input.gateway_names ≡ [])
    ⊎ ((any (is_cod_gateway input) input.gateway_names ≡ true)
        × (any (λ g. not (is_cod_gateway input g)) input.gateway_names ≡ true))
    ⊎ (input.cod_outstanding ≡ none)
    ⊎ (NoneCod input × ((paise : Paise) × Owes input paise × (0 < pos_part paise)))

All-of_not-any :
    (test : Text → Bool) (names : List Text)
    → any (λ g. not (test g)) names ≡ false
    → All (λ g. test g ≡ true) names
All-of_not-any test [] h = tt
All-of_not-any test (g ∷ names) h = (ground arith, All-of_not-any test names (ground arith))

none_of_not_any :
    (test : Text → Bool) (names : List Text)
    → any test names ≡ false
    → All (λ g. test g ≡ false) names
none_of_not_any test [] h = tt
none_of_not_any test (g ∷ names) h = (ground arith, none_of_not_any test names (ground arith))

ltb_ℤ-owed : (p : Paise) → ltb_ℤ (pos 0) p ≡ true → 0 < pos_part p
ltb_ℤ-owed p h = ground arith

ltb_ℤ-settled : (p : Paise) → ltb_ℤ (pos 0) p ≡ false → pos_part p ≡ 0
ltb_ℤ-settled p h = ground arith

by_balance :
    (input : PaymentModeInput) (balance : Option Text) (positive zero mode : PaymentMode)
    → input.cod_outstanding ≡ balance
    → mode_by_balance balance positive zero ≡ ok mode
    → ((paise : Paise) → Owes input paise → 0 < pos_part paise → ModeRule input positive)
    → ((paise : Paise) → Owes input paise → pos_part paise ≡ 0 → ModeRule input zero)
    → ModeRule input mode
unfolding mode_by_balance
by_balance input none positive zero mode known e pos_case zero_case =
    subst (ModeRule input) {x = unresolved} (ok-injective e) (inr (inr (inl known)))
by_balance input (some t) positive zero mode known e pos_case zero_case =
    let (paise, reads, e1) = >>=-eq-ok (rupees_to_paise t) _ e in
    subst (ModeRule input) (ok-injective e1) (elim (Bool-cases (ltb_ℤ (pos 0) paise)) [
      | inl owed ↦ rw owed (pos_case paise (t, known, reads) (ltb_ℤ-owed paise owed))
      | inr settled ↦ rw settled (zero_case paise (t, known, reads) (ltb_ℤ-settled paise settled))
    ])

by_gateways :
    (input : PaymentModeInput) (mode : PaymentMode) (has_cod has_prepaid : Bool)
    → is_empty input.gateway_names ≡ false
    → any (is_cod_gateway input) input.gateway_names ≡ has_cod
    → any (λ g. not (is_cod_gateway input g)) input.gateway_names ≡ has_prepaid
    → (if has_cod && has_prepaid
        then ok unresolved
        else if has_cod
        then mode_by_balance input.cod_outstanding cod prepaid
        else mode_by_balance input.cod_outstanding unresolved prepaid)
      ≡ ok mode
    → ModeRule input mode
by_gateways input mode true true full hc hp e =
    subst (ModeRule input) (ok-injective e) (inr (inl (hc, hp)))
by_gateways input mode true false full hc hp e =
    let every = All-of_not-any (is_cod_gateway input) input.gateway_names hp in
    by_balance input input.cod_outstanding cod prepaid mode refl e
      (λ paise owes owed. (full, every, (paise, owes, owed)))
      (λ paise owes settled. (full, inl every, (paise, owes, settled)))
by_gateways input mode false has_prepaid full hc hp e =
    let no_cod = none_of_not_any (is_cod_gateway input) input.gateway_names hc in
    by_balance input input.cod_outstanding unresolved prepaid mode refl e
      (λ paise owes owed. inr (inr (inr (no_cod, (paise, owes, owed)))))
      (λ paise owes settled. (full, inr no_cod, (paise, owes, settled)))

nil_of_empty : (xs : List Text) → is_empty xs ≡ true → xs ≡ []
nil_of_empty [] h = refl
nil_of_empty (x ∷ xs) h = cc

-- Whatever `derivePaymentMode` returns: COD only with gateways that are all COD and a known positive
-- balance; PREPAID only with gateways that are all COD or all prepaid and a known balance that is
-- not positive; UNRESOLVED only without gateways, with a mix of both kinds, with an unknown balance,
-- or with a positive balance and no COD gateway.
pub derive_payment_mode-ModeRule :
    (input : PaymentModeInput) (mode : PaymentMode)
    → derive_payment_mode input ≡ ok mode
    → ModeRule input mode
unfolding derive_payment_mode
derive_payment_mode-ModeRule input mode e = elim (Bool-cases (is_empty input.gateway_names)) [
  | inl empty ↦
      subst (ModeRule input) {x = unresolved} (ok-injective (rw empty at e))
        (inl (nil_of_empty _ empty))
  | inr full ↦ by_gateways input mode _ _ full refl refl (rw full at e)
]
