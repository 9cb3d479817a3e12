-- ===== src/Derivation/Eligibility/Ready.antt =====
-- An order that is ready has all that a booking needs.
use jsyxi_shipping.Prelude.{
  ℕ, ◌≡◌, ◌≢◌, ◌<◌, refl, subst, sym, Bool, not, true, false, Option, none, some, List, [], Text,
  is_empty, arith, any, trim, length, is_digit, all, ◌==◌, ◌&&◌,
}
use jsyxi_shipping.Prelude.Int.{pos, ◌≤ℤ◌}
use jsyxi_shipping.Result.{ok, >>=-eq-ok, ok-injective}
use jsyxi_shipping.Money.{Paise, rupees_to_paise}
use jsyxi_shipping.Derivation.Weight.{kg_to_grams}
use jsyxi_shipping.Derivation.Payment.{PaymentMode, unresolved}
use jsyxi_shipping.Derivation.Eligibility.{
  EligibilityCheck, EligibilityRecipient, EligibilityInput, EligibilityResult, Dimensions, unless,
  evaluate_eligibility, has_weight, has_collectible, non_blank, non_blank_text, has_address,
  valid_pincode, valid_phone, has_dimensions, positive_dimension, is_given, is_resolved,
  recipient_name_of, pincode_of, phone_of,
}

-- What a booking needs of an order, and what each text reads as.
abbrev pub Addressed : EligibilityRecipient → Type 0
Addressed r =
    ((name : Text) × (r.name ≡ some name) × (trim name ≢ []))
    × (any non_blank_text r.address_lines ≡ true)
    × ((pin : Text) × (r.pincode ≡ some pin)
        × (all is_digit (trim pin) ≡ true)
        × (length (trim pin) ≡ 6))
    × (valid_phone r.phone ≡ true)

abbrev pub Measured : Dimensions → Type 0
Measured d =
    (positive_dimension d.length_cm ≡ true)
    × (positive_dimension d.width_cm ≡ true)
    × (positive_dimension d.height_cm ≡ true)

abbrev pub Bookable : EligibilityInput → Type 0
Bookable input =
    ((r : EligibilityRecipient) × (input.recipient ≡ some r) × Addressed r)
    × (pos 1 ≤ℤ input.allocated_line_count)
    × ((kg : Text) × (g : ℕ) × (input.dead_weight_kg ≡ some kg) × (kg_to_grams kg ≡ ok g) × (0 < g))
    × ((d : Dimensions) × (input.dimensions_cm ≡ some d) × Measured d)
    × ((id : Text) × (input.pickup_location_id ≡ some id))
    × (input.payment_mode ≢ unresolved)
    × ((c : Text) × (p : Paise) × (input.collectible ≡ some c)
        × (rupees_to_paise c ≡ ok p)
        × (pos 0 ≤ℤ p))

unless-empty :
    (b : Bool) (check : EligibilityCheck) (rest : List EligibilityCheck)
    → is_empty (unless b check rest) ≡ true
    → (b ≡ true) × (is_empty rest ≡ true)
unfolding unless
unless-empty true check rest h = (refl, h)
unless-empty false check rest h = cc

and_true : (a b : Bool) → (a && b) ≡ true → (a ≡ true) × (b ≡ true)
and_true true b h = (refl, h)
and_true false b h = cc

non_blank_lem : (o : Option Text) → non_blank o ≡ true → (t : Text) × (o ≡ some t) × (trim t ≢ [])
non_blank_lem none h = cc
non_blank_lem (some t) h = (t, refl, λ e. cc (subst (λ x. not (is_empty x) ≡ true) e h))

pincode_lem :
    (o : Option Text)
    → valid_pincode o ≡ true
    → (pin : Text) × (o ≡ some pin) × (all is_digit (trim pin) ≡ true) × (length (trim pin) ≡ 6)
pincode_lem none h = cc
pincode_lem (some t) h =
    let (digits, six) = and_true (all is_digit (trim t)) (length (trim t) == 6) h in
    (t, refl, digits, ground arith)

recipient_lem :
    (o : Option EligibilityRecipient)
    → non_blank (recipient_name_of o) ≡ true
    → has_address o ≡ true
    → valid_pincode (pincode_of o) ≡ true
    → valid_phone (phone_of o) ≡ true
    → (r : EligibilityRecipient) × (o ≡ some r) × Addressed r
recipient_lem none n a p f = cc
recipient_lem (some r) n a p f = (r, refl, (non_blank_lem r.name n, a, pincode_lem r.pincode p, f))

weight_lem :
    (o : Option Text)
    → has_weight o ≡ ok true
    → (kg : Text) × (g : ℕ) × (o ≡ some kg) × (kg_to_grams kg ≡ ok g) × (0 < g)
unfolding has_weight
weight_lem none h = cc
weight_lem (some kg) h =
    let (g, read, more) = >>=-eq-ok (kg_to_grams kg) _ h in
    let more' = ok-injective more in (kg, g, refl, read, ground arith)

collectible_lem :
    (o : Option Text)
    → has_collectible o ≡ ok true
    → (c : Text) × (p : Paise) × (o ≡ some c) × (rupees_to_paise c ≡ ok p) × (pos 0 ≤ℤ p)
unfolding has_collectible
collectible_lem none h = cc
collectible_lem (some c) h =
    let (p, read, more) = >>=-eq-ok (rupees_to_paise c) _ h in
    let more' = ok-injective more in (c, p, refl, read, ground arith)

dimensions_lem :
    (o : Option Dimensions) → has_dimensions o ≡ true → (d : Dimensions) × (o ≡ some d) × Measured d
dimensions_lem none h = cc
dimensions_lem (some d) h =
    let (lw, t) =
      and_true (positive_dimension d.length_cm && positive_dimension d.width_cm)
        (positive_dimension d.height_cm) h in
    let (l, w) = and_true (positive_dimension d.length_cm) (positive_dimension d.width_cm) lw in
    (d, refl, (l, w, t))

given_lem : (o : Option Text) → is_given o ≡ true → (t : Text) × (o ≡ some t)
given_lem none h = cc
given_lem (some t) h = (t, refl)

resolved_lem : (m : PaymentMode) → is_resolved m ≡ true → m ≢ unresolved
resolved_lem m h = λ e. cc (subst (λ x. is_resolved x ≡ true) e h)

-- When the evaluation returns `ready`, the order has a recipient with a name, an address line, a
-- six-digit pincode and a phone that normalizes to ten digits, at least one allocated line, a dead
-- weight that reads as more than 0 g, three positive dimensions, a pickup location, a resolved payment
-- mode, and a collectible that reads as no negative amount.
pub evaluate_eligibility-Bookable :
    (input : EligibilityInput) (result : EligibilityResult)
    → evaluate_eligibility input ≡ ok result
    → result.ready ≡ true
    → Bookable input
unfolding evaluate_eligibility
evaluate_eligibility-Bookable input result h ready =
    let (weight, w, h1) = >>=-eq-ok (has_weight input.dead_weight_kg) _ h in
    let (collects, c, h2) = >>=-eq-ok (has_collectible input.collectible) _ h1 in
    let empty = subst (λ r. r.ready ≡ true) (sym (ok-injective h2)) ready in
    let (name, e1) = unless-empty _ _ _ empty in
    let (address, e2) = unless-empty _ _ _ e1 in
    let (pin, e3) = unless-empty _ _ _ e2 in
    let (phone, e4) = unless-empty _ _ _ e3 in
    let (lines, e5) = unless-empty _ _ _ e4 in
    let (heavy, e6) = unless-empty _ _ _ e5 in
    let (dims, e7) = unless-empty _ _ _ e6 in
    let (pickup, e8) = unless-empty _ _ _ e7 in
    let (mode, e9) = unless-empty _ _ _ e8 in
    let (cod, e10) = unless-empty _ _ _ e9 in
    (
      recipient_lem input.recipient name address pin phone,
      ground arith,
      weight_lem input.dead_weight_kg (subst (λ b. has_weight input.dead_weight_kg ≡ ok b) heavy w),
      dimensions_lem input.dimensions_cm dims,
      given_lem input.pickup_location_id pickup,
      resolved_lem input.payment_mode mode,
      collectible_lem input.collectible
          (subst (λ b. has_collectible input.collectible ≡ ok b) cod c),
    )
