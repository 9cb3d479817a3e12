-- ===== src/Cod/State/Rules.antt =====
-- The derived state of a COD expectation answers a rule on its amounts and on the date.
use jsyxi_shipping.Prelude.{
  ℕ, ◌≡◌, ◌≢◌, ◌⊎◌, refl, inl, inr, Bool, true, false, arith, Bool-cases, if◌then◌else◌,
}
use jsyxi_shipping.Prelude.Int.{ℤ, pos, eq_ℤ, ltb_ℤ, leb_ℤ, ◌≤ℤ◌, ◌+ℤ◌, ◌-ℤ◌, +ℤ_parts, -ℤ_parts}
use jsyxi_shipping.Cod.State.{
  CodExpectedState, awaiting, tallied, short, excess, pending_overdue, rto_uncollected, CodInput,
  past_due, state_of_amounts, is_rto_uncollected, derive_cod_state,
}

-- The rule for each state that the amounts decide: `e` is expected, `r` allocated, `t` tolerated.
abbrev pub AmountRule : ℤ → ℤ → ℕ → Bool → CodExpectedState → Type 0
AmountRule e r t past awaiting = (r ≡ pos 0) × (past ≡ false)
AmountRule e r t past tallied = (r ≢ pos 0) × (r ≤ℤ e +ℤ pos t) × (e ≤ℤ r +ℤ pos t)
AmountRule e r t past excess = (r ≢ pos 0) × (e +ℤ pos t +ℤ pos 1 ≤ℤ r)
AmountRule e r t past short = (r ≢ pos 0) × (past ≡ false) × (r +ℤ pos t +ℤ pos 1 ≤ℤ e)
AmountRule e r t past pending_overdue = (past ≡ true) × ((r ≡ pos 0) ⊎ (r +ℤ pos t +ℤ pos 1 ≤ℤ e))
AmountRule e r t past rto_uncollected = ⊥

eq_ℤ-true : (a b : ℤ) → eq_ℤ a b ≡ true → a ≡ b
eq_ℤ-true a b h = ground arith

eq_ℤ-false : (a b : ℤ) → eq_ℤ a b ≡ false → a ≢ b
eq_ℤ-false a b h = ground arith

near :
    (e r : ℤ) (t : ℕ)
    → leb_ℤ (if ltb_ℤ e r then r -ℤ e else e -ℤ r) (pos t) ≡ true
    → (r ≤ℤ e +ℤ pos t) × (e ≤ℤ r +ℤ pos t)
near e r t h = ground (
  arith,
  +ℤ_parts e (pos t),
  +ℤ_parts r (pos t),
  -ℤ_parts r e,
  -ℤ_parts e r,
  +ℤ_parts (e +ℤ pos t) (pos 1),
  +ℤ_parts (r +ℤ pos t) (pos 1),
)

over : (e r : ℤ) (t : ℕ) → ltb_ℤ (e +ℤ pos t) r ≡ true → e +ℤ pos t +ℤ pos 1 ≤ℤ r
over e r t h = ground (
  arith,
  +ℤ_parts e (pos t),
  +ℤ_parts r (pos t),
  -ℤ_parts r e,
  -ℤ_parts e r,
  +ℤ_parts (e +ℤ pos t) (pos 1),
  +ℤ_parts (r +ℤ pos t) (pos 1),
)

under :
    (e r : ℤ) (t : ℕ)
    → leb_ℤ (if ltb_ℤ e r then r -ℤ e else e -ℤ r) (pos t) ≡ false
    → ltb_ℤ (e +ℤ pos t) r ≡ false
    → r +ℤ pos t +ℤ pos 1 ≤ℤ e
under e r t h k = ground (
  arith,
  +ℤ_parts e (pos t),
  +ℤ_parts r (pos t),
  -ℤ_parts r e,
  -ℤ_parts e r,
  +ℤ_parts (e +ℤ pos t) (pos 1),
  +ℤ_parts (r +ℤ pos t) (pos 1),
)

state_of_amounts_lem :
    (e r : ℤ) (t : ℕ) (past : Bool) → AmountRule e r t past (state_of_amounts e r (pos t) past)
unfolding state_of_amounts
state_of_amounts_lem e r t past = elim (Bool-cases (eq_ℤ r (pos 0))) [
  | inl none ↦
      let z = eq_ℤ-true r (pos 0) none in
      rw none (elim (Bool-cases past) [
        | inl late ↦ rw late (refl, inl z)
        | inr early ↦ rw early (z, refl)
      ])
  | inr some ↦
      let nz = eq_ℤ-false r (pos 0) some in
      let diff = if ltb_ℤ e r then r -ℤ e else e -ℤ r in
      elim (Bool-cases (leb_ℤ diff (pos t))) [
        | inl close ↦ let (low, high) = near e r t close in rw (some, close) (nz, low, high)
        | inr far ↦ elim (Bool-cases (ltb_ℤ (e +ℤ pos t) r)) [
          | inl more ↦ rw (some, far, more) (nz, over e r t more)
          | inr less ↦
              let gap = under e r t far less in
              rw (some, far, less)
                (elim (Bool-cases past) [
                  | inl late ↦ rw late (refl, inr gap)
                  | inr early ↦ rw early (nz, refl, gap)
                ])
        ]
      ]
]

-- What the derived state of an expectation means, before and after it is written off.
abbrev pub StateRule : CodInput → ℕ → CodExpectedState → Type 0
StateRule input t s =
    if is_rto_uncollected input.current
    then s ≡ rto_uncollected
    else AmountRule input.expected_paise input.allocated_paise t (past_due input) s

-- An expectation already RTO_UNCOLLECTED stays so. Any other, under a tolerance that is not negative,
-- gets the one state whose rule holds: AWAITING with nothing allocated and not past due; TALLIED with
-- an allocation within the tolerance on either side; EXCESS above it, past due or not; SHORT below it
-- and not past due; PENDING_OVERDUE past due with nothing allocated or below the tolerance. It never
-- becomes RTO_UNCOLLECTED.
pub derive_cod_state-StateRule :
    (input : CodInput) (t : ℕ)
    → input.tolerance_paise ≡ pos t
    → StateRule input t (derive_cod_state input)
unfolding derive_cod_state
derive_cod_state-StateRule input t h = elim (Bool-cases (is_rto_uncollected input.current)) [
  | inl written_off ↦ rw written_off refl
  | inr open_ ↦
      rw (open_, h)
        (state_of_amounts_lem input.expected_paise input.allocated_paise t (past_due input))
]
