-- ===== src/Money/Rounding.antt =====
-- Half-up rounding, rates and rounded-up division.
use jsyxi_shipping.Prelude.{
  ℕ, zero, suc, ◌+◌, ◌-◌, ◌*◌, ◌/◌, ◌≤◌, ◌<◌, ◌≡◌, refl, ◌⊎◌, inl, inr, arith,
}
use jsyxi_shipping.Prelude.Int.{ℤ, pos, negsuc, pos_mul, ◌≤ℤ◌, pos_part, neg_part}
use jsyxi_shipping.Result.{
  Result, ok, err, negative_amount, nonpositive_denominator, nonpositive_divisor,
}
use jsyxi_shipping.Money.{half_up, div_round_half_up, apply_rate, ceil_div, million}

-- The nearest integer to n / d, a tie upwards.
abbrev pub IsHalfUp : ℕ → ℕ → ℕ → Type 0
IsHalfUp n d q = (2 * (q * d) ≤ 2 * n + d) × (2 * n < 2 * (q * d) + d)

pub half_up-IsHalfUp : (n d : ℕ) → 0 < d → IsHalfUp n d (half_up n d)
unfolding half_up
half_up-IsHalfUp n d h = grind arith

pub div_round_half_up-pos :
    (n d : ℕ) → div_round_half_up (pos n) (pos (suc d)) ≡ ok (pos (half_up n (suc d)))
unfolding div_round_half_up
div_round_half_up-pos n d = ground arith

pub apply_rate-pos : (n rate : ℕ) → apply_rate (pos n) rate ≡ ok (pos (half_up (n * rate) million))
unfolding apply_rate
apply_rate-pos n rate = rw (pos_mul n rate) (div_round_half_up-pos (n * rate) 999_999)

pub ceil_div-pos : (a b : ℕ) → ceil_div (pos a) (pos (suc b)) ≡ ok (pos ((a + b) / suc b))
unfolding ceil_div
ceil_div-pos zero b = let zero_div : (0 + b) / suc b ≡ 0 = grind arith in rw zero_div (ground arith)
ceil_div-pos (suc a) b =
    let same : suc a + suc b - 1 ≡ suc a + b = omega arith in rw (ceil_div, same) (ground arith)

div_round_half_up-neg_denominator :
    (n : ℤ) (d : ℕ) → div_round_half_up n (negsuc d) ≡ err nonpositive_denominator
unfolding div_round_half_up
div_round_half_up-neg_denominator n d = ground arith

div_round_half_up-neg_numerator :
    (n d : ℕ) → div_round_half_up (negsuc n) (pos (suc d)) ≡ err negative_amount
unfolding div_round_half_up
div_round_half_up-neg_numerator n d = ground arith

ceil_div-neg_divisor : (a : ℤ) (b : ℕ) → ceil_div a (negsuc b) ≡ err nonpositive_divisor
unfolding ceil_div
ceil_div-neg_divisor a b = ground arith

ceil_div-zero_divisor : (a : ℤ) → ceil_div a (pos 0) ≡ err nonpositive_divisor
unfolding ceil_div
ceil_div-zero_divisor a = ground arith

div_round_half_up-zero_denominator :
    (n : ℤ) → div_round_half_up n (pos 0) ≡ err nonpositive_denominator
unfolding div_round_half_up
div_round_half_up-zero_denominator n = ground arith

ceil_div-neg : (a b : ℕ) → ceil_div (negsuc a) (pos (suc b)) ≡ ok (pos 0)
unfolding ceil_div
ceil_div-neg a b = ground arith

-- What `divRoundHalfUp` does with each pair of arguments.
abbrev pub RoundsHalfUp : ℤ → ℤ → Result ℤ → Type 0
RoundsHalfUp n d (ok q) =
    (pos 0 ≤ℤ n)
    × (0 < pos_part d)
    × (q ≡ pos (pos_part q))
    × IsHalfUp (pos_part n) (pos_part d) (pos_part q)
RoundsHalfUp n d (err e) =
    ((d ≤ℤ pos 0) × (e ≡ nonpositive_denominator))
    ⊎ ((0 < pos_part d) × (0 < neg_part n) × (e ≡ negative_amount))

-- For a positive denominator and a numerator that is not negative, `divRoundHalfUp` returns the
-- nearest integer to the quotient, a tie going up; on a denominator that is not positive it throws
-- for that, and on a negative numerator over a positive denominator it throws for the amount.
pub div_round_half_up_lem : (n d : ℤ) → RoundsHalfUp n d (div_round_half_up n d)
div_round_half_up_lem n (pos zero) =
    rw (div_round_half_up-zero_denominator n) (inl (omega arith, refl))
div_round_half_up_lem n (negsuc d) =
    rw (div_round_half_up-neg_denominator n d) (inl (omega arith, refl))
div_round_half_up_lem (pos n) (pos (suc d)) =
    rw (div_round_half_up-pos n d)
      (omega arith, omega arith, refl, half_up-IsHalfUp n (suc d) (omega arith))
div_round_half_up_lem (negsuc n) (pos (suc d)) =
    rw (div_round_half_up-neg_numerator n d) (inr (omega arith, omega arith, refl))

-- What `ceilDiv` does: the least quotient that covers `a`.
abbrev pub CeilsDiv : ℤ → ℤ → Result ℤ → Type 0
CeilsDiv a b (ok q) =
    (0 < pos_part b)
    × (q ≡ pos (pos_part q))
    × (pos_part a ≤ pos_part q * pos_part b)
    × ((m : ℕ) → pos_part a ≤ m * pos_part b → pos_part q ≤ m)
CeilsDiv a b (err e) = (b ≤ℤ pos 0) × (e ≡ nonpositive_divisor)

-- For a positive divisor `ceilDiv` returns the least q that is not negative with a ≤ q · b; on a
-- divisor that is not positive it throws.
ceil_div_lem : (a b : ℤ) → CeilsDiv a b (ceil_div a b)
ceil_div_lem a (pos zero) = rw (ceil_div-zero_divisor a) (omega arith, refl)
ceil_div_lem a (negsuc b) = rw (ceil_div-neg_divisor a b) (omega arith, refl)
ceil_div_lem (pos a) (pos (suc b)) =
    rw (ceil_div-pos a b) (omega arith, refl, grind arith, λ m h. grind arith)
ceil_div_lem (negsuc a) (pos (suc b)) =
    rw (ceil_div-neg a b) (omega arith, refl, omega arith, λ m h. omega arith)
