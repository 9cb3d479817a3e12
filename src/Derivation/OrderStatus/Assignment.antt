-- ===== src/Derivation/OrderStatus/Assignment.antt =====
-- When an order's collectible counts as assigned to a shipment.
use jsyxi_shipping.Prelude.{
  ◌≡◌, ◌⊎◌, refl, ◌∙◌, subst, sym, inl, inr, Bool, true, false, Bool-cases, Option, List, [], ◌∷◌,
  Text, is_empty, filter, arith, if◌then◌else◌,
}
use jsyxi_shipping.Prelude.Int.{ℤ, pos, leb_ℤ, eq_ℤ, ◌≤ℤ◌}
use jsyxi_shipping.Result.{ok, ◌>>=◌, >>=-eq-ok, ok-injective}
use jsyxi_shipping.Money.{Paise, rupees_to_paise}
use jsyxi_shipping.Derivation.OrderStatus.{
  CodAssignmentState, not_applicable, assigned, unassigned, ShipmentCodInput, has_active_awb,
  carriers_of, carries_all, or_zero, derive_cod_assignment_state,
}

-- One shipment alone, among those with an active AWB, carries a collectible, and it is the full sum.
abbrev pub Assigned : Paise → List ShipmentCodInput → Type 0
Assigned outstanding active =
    (s : ShipmentCodInput) × (carriers_of active ≡ ok (s ∷ []))
    × (rupees_to_paise s.collectible ≡ ok outstanding)

abbrev pub AssignmentRule : Paise → List ShipmentCodInput → CodAssignmentState → Type 0
AssignmentRule outstanding active assigned = (pos 1 ≤ℤ outstanding) × Assigned outstanding active
AssignmentRule outstanding active unassigned =
    (pos 1 ≤ℤ outstanding) × (is_empty active ≡ false) × (Assigned outstanding active → ⊥)
AssignmentRule outstanding active not_applicable = (outstanding ≤ℤ pos 0) ⊎ (is_empty active ≡ true)

carries_all-true :
    (carriers : List ShipmentCodInput) (outstanding : Paise)
    → carries_all carriers outstanding ≡ ok true
    → (s : ShipmentCodInput) × (carriers ≡ s ∷ [])
      × (rupees_to_paise s.collectible ≡ ok outstanding)
unfolding carries_all
carries_all-true [] outstanding h = cc
carries_all-true (s ∷ r ∷ rest) outstanding h = cc
carries_all-true (s ∷ []) outstanding h =
    let (p, read, same) = >>=-eq-ok (rupees_to_paise s.collectible) _ h in
    let same' = ok-injective same in
    let eq : p ≡ outstanding = ground arith in
    (s, refl, subst (λ q. rupees_to_paise s.collectible ≡ ok q) eq read)

eq_ℤ-refl : (a : ℤ) → eq_ℤ a a ≡ true
eq_ℤ-refl a = ground arith

carries_all-single :
    (s : ShipmentCodInput) (outstanding : Paise)
    → rupees_to_paise s.collectible ≡ ok outstanding
    → carries_all (s ∷ []) outstanding ≡ ok true
unfolding carries_all
carries_all-single s outstanding h = rw (h, eq_ℤ-refl outstanding)

settled :
    (outstanding : Paise) (active carriers : List ShipmentCodInput) (full : Bool)
    → pos 1 ≤ℤ outstanding
    → carriers_of active ≡ ok carriers
    → carries_all carriers outstanding ≡ ok full
    → AssignmentRule outstanding active
        (if full then assigned else if is_empty active then not_applicable else unassigned)
settled outstanding active carriers true positive listed carried =
    let (s, one, read) = carries_all-true carriers outstanding carried in
    (positive, (s, subst (λ cs. carriers_of active ≡ ok cs) one listed, read))
settled outstanding active carriers false positive listed carried =
    elim (Bool-cases (is_empty active)) [
      | inl none_ ↦ rw none_ (inr none_)
      | inr some_ ↦ rw some_ (
        positive,
        some_,
        λ (s, one, read).
            let same = ok-injective (sym listed ∙ one) in
            let lone = subst (λ cs. carries_all cs outstanding ≡ ok false) same carried in
            let full = carries_all-single s outstanding read in cc,
      )
    ]

decided :
    (outstanding : Paise) (active : List ShipmentCodInput) (state : CodAssignmentState) (b : Bool)
    → leb_ℤ outstanding (pos 0) ≡ b
    → (if b then ok not_applicable else (do
      carriers ← carriers_of active
      full ← carries_all carriers outstanding
      ok (if full then assigned else if is_empty active then not_applicable else unassigned)))
      ≡ ok state
    → AssignmentRule outstanding active state
decided outstanding active state true small h =
    let low : outstanding ≤ℤ pos 0 = ground arith in
    subst (AssignmentRule outstanding active) (ok-injective h) (inl low)
decided outstanding active state false large h =
    let (carriers, listed, h1) = >>=-eq-ok (carriers_of active) _ h in
    let (full, carried, h2) = >>=-eq-ok (carries_all carriers outstanding) _ h1 in
    let positive : pos 1 ≤ℤ outstanding = ground arith in
    subst (AssignmentRule outstanding active) (ok-injective h2)
      (settled outstanding active carriers full positive listed carried)

-- The state that is returned for readable amounts is ASSIGNED for a positive outstanding amount only
-- when one shipment alone among those with an active AWB has a positive collectible and that is the
-- full amount; UNASSIGNED only when the amount is positive, some shipment has an active AWB, and no
-- such single carrier exists; NOT_APPLICABLE only when the amount is not positive or no shipment has
-- an active AWB.
pub derive_cod_assignment_state-AssignmentRule :
    (outstanding_text : Option Text) (shipments : List ShipmentCodInput)
    (state : CodAssignmentState)
    → derive_cod_assignment_state outstanding_text shipments ≡ ok state
    → (outstanding : Paise) × (rupees_to_paise (or_zero outstanding_text) ≡ ok outstanding)
      × AssignmentRule outstanding (filter has_active_awb shipments) state
unfolding derive_cod_assignment_state
derive_cod_assignment_state-AssignmentRule outstanding_text shipments state h =
    let (outstanding, read, h1) = >>=-eq-ok (rupees_to_paise (or_zero outstanding_text)) _ h in
    (outstanding, read, decided outstanding (filter has_active_awb shipments) state _ refl h1)
