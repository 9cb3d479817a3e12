-- ===== src/Gst/Tax/Split.antt =====
-- The split of a line's tax in two halves costs or gains a paise at most.
use jsyxi_shipping.Prelude.{ℕ, ◌+◌, ◌-◌, ◌*◌, ◌/◌, ◌≤◌, ◌≡◌, subst, true, false, arith}
use jsyxi_shipping.Prelude.Int.{pos}
use jsyxi_shipping.Result.{ok}
use jsyxi_shipping.Money.{million, half_up}
use jsyxi_shipping.Money.Rounding.{half_up-IsHalfUp, apply_rate-pos}
use jsyxi_shipping.Gst.Tax.{compute_line_tax}

split_halves :
    (a b : ℕ)
    → (half_up a million + half_up b million ≤ half_up (a + b) million + 1)
      × (half_up (a + b) million ≤ half_up a million + half_up b million + 1)
split_halves a b =
    let ha = half_up-IsHalfUp a million (omega arith) in
    let hb = half_up-IsHalfUp b million (omega arith) in
    let hab = half_up-IsHalfUp (a + b) million (omega arith) in (omega arith, omega arith)

halves_sum : (n rate : ℕ) → n * (rate / 2) + n * (rate - rate / 2) ≡ n * rate
halves_sum n rate = grind arith

half_up_mono : (a b : ℕ) → a ≤ b → half_up a million ≤ half_up b million
half_up_mono a b h =
    let ha = half_up-IsHalfUp a million (omega arith) in
    let hb = half_up-IsHalfUp b million (omega arith) in omega arith

-- For a taxable value that is not negative the tax is computed for either place of supply: within
-- the state CGST and SGST alone, CGST at most SGST; across states IGST alone; none negative. The two
-- halves together differ from the IGST of the same value and rate by at most one paise.
pub compute_line_tax_lem :
    (n rate : ℕ)
    → (c s i : ℕ) × (compute_line_tax (pos n) rate true
        ≡ ok (record { cgst = pos c; sgst = pos s; igst = pos 0 }))
      × (compute_line_tax (pos n) rate false
          ≡ ok (record { cgst = pos 0; sgst = pos 0; igst = pos i }))
      × (c ≤ s)
      × (c + s ≤ i + 1)
      × (i ≤ c + s + 1)
unfolding compute_line_tax
compute_line_tax_lem n rate =
    let a = n * (rate / 2) in
    let b = n * (rate - rate / 2) in
    let (under, over) = split_halves a b in
    let same = halves_sum n rate in
    (
      half_up a million,
      half_up b million,
      half_up (n * rate) million,
      rw (apply_rate-pos n (rate / 2), apply_rate-pos n (rate - rate / 2)),
      rw (apply_rate-pos n rate),
      half_up_mono a b (grind arith),
      subst (λ m. half_up a million + half_up b million ≤ half_up m million + 1) same under,
      subst (λ m. half_up m million ≤ half_up a million + half_up b million + 1) same over,
    )
