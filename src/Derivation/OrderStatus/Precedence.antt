-- ===== src/Derivation/OrderStatus/Precedence.antt =====
-- What each shown status says of the shipments.
use jsyxi_shipping.Prelude.{
  ◌≡◌, refl, Bool, true, false, not, ◌&&◌, ◌||◌, List, [], ◌∷◌, arith, Text, any, all, All,
  is_empty, if◌then◌else◌,
}
use jsyxi_shipping.States.{MovementState, is_terminal, movement_eq}
use jsyxi_shipping.Derivation.OrderStatus.{
  ShownStatus, order_state, shipping, ShipmentStatusInput, is_manual, is_failed, is_ndr,
  is_delivered, is_rto_in_progress, is_cancelled, is_live_at, derive_order_shipping_status,
  manual_assignment_needed, ndr, rto_in_progress, booking_failed, not_shipped, in_transit,
  out_for_delivery, delivered, cancelled, partially_delivered,
}

-- The shipment is cancelled in one of its machines, or its movement is over.
abbrev pub is_settled : ShipmentStatusInput → Bool
is_settled s = is_cancelled s || is_terminal s.movement_state

live_or_settled :
    (c : Bool) (m : MovementState)
    → elim m [ MovementState.ndr ↦ true | _ ↦ false ] ≡ false
    → elim m [
      | MovementState.rto_initiated ↦ true
      | MovementState.rto_in_transit ↦ true
      | MovementState.rto_out_for_delivery ↦ true
      | _ ↦ false
    ]
      ≡ false
    → (not c && not (is_terminal m) && movement_eq m MovementState.not_shipped) ≡ false
    → (not c && not (is_terminal m) && movement_eq m MovementState.in_transit) ≡ false
    → (not c && not (is_terminal m) && movement_eq m MovementState.out_for_delivery) ≡ false
    → (c || is_terminal m) ≡ true
unfolding movement_eq
live_or_settled true m a b c d e = refl
live_or_settled false MovementState.not_shipped a b c d e = cc
live_or_settled false MovementState.in_transit a b c d e = cc
live_or_settled false MovementState.out_for_delivery a b c d e = cc
live_or_settled false MovementState.ndr a b c d e = cc
live_or_settled false MovementState.rto_initiated a b c d e = cc
live_or_settled false MovementState.rto_in_transit a b c d e = cc
live_or_settled false MovementState.rto_out_for_delivery a b c d e = cc
live_or_settled false MovementState.delivered a b c d e = refl
live_or_settled false MovementState.rto_delivered a b c d e = refl
live_or_settled false MovementState.lost_or_damaged a b c d e = refl
live_or_settled false MovementState.cancelled_by_courier a b c d e = refl

module _ {ℓ} {A : Type ℓ} (p : A → Bool) (x : A) (xs : List A) where
  any-false_head : any p (x ∷ xs) ≡ false → p x ≡ false
  any-false_head h = ground arith

  any-false_tail : any p (x ∷ xs) ≡ false → any p xs ≡ false
  any-false_tail h = ground arith

All-settled :
    (xs : List ShipmentStatusInput)
    → any is_ndr xs ≡ false
    → any is_rto_in_progress xs ≡ false
    → any (is_live_at MovementState.not_shipped) xs ≡ false
    → any (is_live_at MovementState.in_transit) xs ≡ false
    → any (is_live_at MovementState.out_for_delivery) xs ≡ false
    → All (λ s. is_settled s ≡ true) xs
All-settled [] a b c d e = tt
All-settled (s ∷ xs) a b c d e = (
  unfold is_live_at in
      live_or_settled (is_cancelled s) s.movement_state (any-false_head is_ndr s xs a)
        (any-false_head is_rto_in_progress s xs b)
        (any-false_head (is_live_at MovementState.not_shipped) s xs c)
        (any-false_head (is_live_at MovementState.in_transit) s xs d)
        (any-false_head (is_live_at MovementState.out_for_delivery) s xs e),
  All-settled xs (any-false_tail is_ndr s xs a) (any-false_tail is_rto_in_progress s xs b)
      (any-false_tail (is_live_at MovementState.not_shipped) s xs c)
      (any-false_tail (is_live_at MovementState.in_transit) s xs d)
      (any-false_tail (is_live_at MovementState.out_for_delivery) s xs e),
)

all-All : {A : Type 0} (p : A → Bool) (xs : List A) → all p xs ≡ true → All (λ x. p x ≡ true) xs
all-All p [] h = tt
all-All p (x ∷ xs) h = (ground arith, all-All p xs (ground arith))

-- No shipment stands on a rung above the in-flight ones.
abbrev pub Clear : List ShipmentStatusInput → Type 0
Clear xs =
    (any is_manual xs ≡ false)
    × (any is_ndr xs ≡ false)
    × (any is_rto_in_progress xs ≡ false)
    × (any is_failed xs ≡ false)

abbrev NoneLive : MovementState → List ShipmentStatusInput → Type 0
NoneLive m xs = any (is_live_at m) xs ≡ false

-- What each status says of the shipments.
abbrev pub Says : List ShipmentStatusInput → ShownStatus → Type 0
Says xs (order_state t) = xs ≡ []
Says xs (shipping manual_assignment_needed) = any is_manual xs ≡ true
Says xs (shipping ndr) = (any is_manual xs ≡ false) × (any is_ndr xs ≡ true)
Says xs (shipping rto_in_progress) =
    (any is_manual xs ≡ false) × (any is_ndr xs ≡ false) × (any is_rto_in_progress xs ≡ true)
Says xs (shipping booking_failed) =
    (any is_manual xs ≡ false)
    × (any is_ndr xs ≡ false)
    × (any is_rto_in_progress xs ≡ false)
    × (any is_failed xs ≡ true)
Says xs (shipping not_shipped) = Clear xs × (any (is_live_at MovementState.not_shipped) xs ≡ true)
Says xs (shipping in_transit) =
    Clear xs
    × (any (is_live_at MovementState.not_shipped) xs ≡ false)
    × (any (is_live_at MovementState.in_transit) xs ≡ true)
Says xs (shipping out_for_delivery) =
    Clear xs
    × (any (is_live_at MovementState.not_shipped) xs ≡ false)
    × (any (is_live_at MovementState.in_transit) xs ≡ false)
    × (any (is_live_at MovementState.out_for_delivery) xs ≡ true)
Says xs (shipping delivered) = Clear xs × All (λ s. is_delivered s ≡ true) xs
Says xs (shipping cancelled) =
    Clear xs × All (λ s. is_cancelled s ≡ true) xs × (all is_delivered xs ≡ false)
Says xs (shipping partially_delivered) =
    Clear xs
    × All (λ s. is_settled s ≡ true) xs
    × (all is_delivered xs ≡ false)
    × (all is_cancelled xs ≡ false)

nil_of_empty : (xs : List ShipmentStatusInput) → is_empty xs ≡ true → xs ≡ []
nil_of_empty [] h = refl
nil_of_empty (x ∷ xs) h = cc

-- The status that an order shows is the first rung that one of its shipments stands on: manual
-- assignment, NDR, return, failed booking, then the least advanced of the live shipments; without
-- any of these every shipment is cancelled or has a terminal movement, and the status is DELIVERED
-- if all are delivered, CANCELLED if all are cancelled, and PARTIALLY_DELIVERED for a mix.
pub derive_order_shipping_status-Says :
    (state : Text) (xs : List ShipmentStatusInput) → Says xs (derive_order_shipping_status state xs)
unfolding derive_order_shipping_status
derive_order_shipping_status-Says state xs =
    settle (is_empty xs) (any is_manual xs) (any is_ndr xs) (any is_rto_in_progress xs)
      (any is_failed xs) (any (is_live_at MovementState.not_shipped) xs)
      (any (is_live_at MovementState.in_transit) xs)
      (any (is_live_at MovementState.out_for_delivery) xs) (all is_delivered xs)
      (all is_cancelled xs) refl refl refl refl refl refl refl refl refl refl
  where
    settle :
        (e m n r f a b c d k : Bool)
        → is_empty xs ≡ e
        → any is_manual xs ≡ m
        → any is_ndr xs ≡ n
        → any is_rto_in_progress xs ≡ r
        → any is_failed xs ≡ f
        → any (is_live_at MovementState.not_shipped) xs ≡ a
        → any (is_live_at MovementState.in_transit) xs ≡ b
        → any (is_live_at MovementState.out_for_delivery) xs ≡ c
        → all is_delivered xs ≡ d
        → all is_cancelled xs ≡ k
        → Says xs (
            if e
            then order_state state
            else if m
            then shipping manual_assignment_needed
            else if n
            then shipping ndr
            else if r
            then shipping rto_in_progress
            else if f
            then shipping booking_failed
            else if a
            then shipping not_shipped
            else if b
            then shipping in_transit
            else if c
            then shipping out_for_delivery
            else if d
            then shipping delivered
            else if k
            then shipping cancelled
            else shipping partially_delivered)
    settle true m n r f a b c d k he hm hn hr hf ha hb hc hd hk = nil_of_empty xs he
    settle false true n r f a b c d k he hm hn hr hf ha hb hc hd hk = hm
    settle false false true r f a b c d k he hm hn hr hf ha hb hc hd hk = (hm, hn)
    settle false false false true f a b c d k he hm hn hr hf ha hb hc hd hk = (hm, hn, hr)
    settle false false false false true a b c d k he hm hn hr hf ha hb hc hd hk = (hm, hn, hr, hf)
    settle false false false false false true b c d k he hm hn hr hf ha hb hc hd hk =
        ((hm, hn, hr, hf), ha)
    settle false false false false false false true c d k he hm hn hr hf ha hb hc hd hk =
        ((hm, hn, hr, hf), ha, hb)
    settle false false false false false false false true d k he hm hn hr hf ha hb hc hd hk =
        ((hm, hn, hr, hf), ha, hb, hc)
    settle false false false false false false false false true k he hm hn hr hf ha hb hc hd hk =
        ((hm, hn, hr, hf), all-All is_delivered xs hd)
    settle false false false false false false false false false true he hm hn hr hf ha hb hc hd
          hk =
        ((hm, hn, hr, hf), all-All is_cancelled xs hk, hd)
    settle false false false false false false false false false false he hm hn hr hf ha hb hc hd
          hk =
        ((hm, hn, hr, hf), All-settled xs hn hr ha hb hc, hd, hk)
