-- ===== src/Rules/Lexical.antt =====
-- The order that CHEAPEST and FASTEST sort by: a value, then the merchant's order, then the chain's.
use jsyxi_shipping.Prelude.{◌≡◌, Bool, true, false, not, arith, if◌then◌else◌}
use jsyxi_shipping.Prelude.Int.{ℤ, pos, eq_ℤ, leb_ℤ, ◌-ℤ◌, ◌≤ℤ◌, -ℤ_parts}
use jsyxi_shipping.Rules.Decimals.{sign_of}

abbrev pub then_by : ℤ → ℤ → ℤ
then_by first second = if not (eq_ℤ first (pos 0)) then first else second

unfoldable pub lex : ℤ → ℤ → ℤ → ℤ
lex x y z = then_by x (then_by y z)

leb_diff : (a b : ℤ) → leb_ℤ (a -ℤ b) (pos 0) ≡ leb_ℤ a b
leb_diff a b = ground (arith, -ℤ_parts a b)

eq_diff : (a b : ℤ) → eq_ℤ (a -ℤ b) (pos 0) ≡ eq_ℤ a b
eq_diff a b = ground (arith, -ℤ_parts a b)

leb_sign : (a b : ℤ) → leb_ℤ (sign_of a b) (pos 0) ≡ leb_ℤ a b
leb_sign a b = ground arith

eq_sign : (a b : ℤ) → eq_ℤ (sign_of a b) (pos 0) ≡ eq_ℤ a b
eq_sign a b = ground arith

-- What is compared: a value, the merchant's order and the place in the chain.
pub record Rank : Type 0 where
  pub value : ℤ
  pub tie : ℤ
  pub place : ℤ

abbrev pub rank_leb : Rank → Rank → Bool
rank_leb a b =
    if not (eq_ℤ a.value b.value)
    then leb_ℤ a.value b.value
    else if not (eq_ℤ a.tie b.tie)
    then leb_ℤ a.tie b.tie
    else leb_ℤ a.place b.place

leb-then_by :
    (x y : ℤ)
    → leb_ℤ (then_by x y) (pos 0)
      ≡ (if not (eq_ℤ x (pos 0)) then leb_ℤ x (pos 0) else leb_ℤ y (pos 0))
leb-then_by x y = ground arith

-- Both comparisons: by the sign of the values or by their difference, then by differences.
pub leb-lex_sign :
    (a b : Rank)
    → leb_ℤ (lex (sign_of a.value b.value) (a.tie -ℤ b.tie) (a.place -ℤ b.place)) (pos 0)
      ≡ rank_leb a b
unfolding lex
leb-lex_sign a b = rw (
  leb-then_by (sign_of a.value b.value) _,
  leb-then_by (a.tie -ℤ b.tie) _,
  leb_sign a.value b.value,
  eq_sign a.value b.value,
  leb_diff a.tie b.tie,
  eq_diff a.tie b.tie,
  leb_diff a.place b.place,
)

leb_trans : (u v w : ℤ) → leb_ℤ u v ≡ true → leb_ℤ v w ≡ true → leb_ℤ u w ≡ true
leb_trans u v w h k = ground arith

order_trans :
    (u v w : ℤ) {p q r : Bool}
    → (p ≡ true → q ≡ true → r ≡ true)
    → (if not (eq_ℤ u v) then leb_ℤ u v else p) ≡ true
    → (if not (eq_ℤ v w) then leb_ℤ v w else q) ≡ true
    → (if not (eq_ℤ u w) then leb_ℤ u w else r) ≡ true
order_trans u v w next h k = ground arith

pub rank_trans : (a b c : Rank) → rank_leb a b ≡ true → rank_leb b c ≡ true → rank_leb a c ≡ true
rank_trans a b c =
    order_trans a.value b.value c.value
      (order_trans a.tie b.tie c.tie (leb_trans a.place b.place c.place))

pub rank_total : (a b : Rank) → rank_leb a b ≡ false → rank_leb b a ≡ true
rank_total a b h = ground arith

pub rank_value : (a b : Rank) → rank_leb a b ≡ true → a.value ≤ℤ b.value
rank_value a b h = ground arith

pub rank_tie : (a b : Rank) → rank_leb a b ≡ true → eq_ℤ a.value b.value ≡ true → a.tie ≤ℤ b.tie
rank_tie a b h e = ground arith
