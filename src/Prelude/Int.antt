-- ===== src/Prelude/Int.antt =====
-- Signed integers over the native numbers, under the library's names (its ℤ stands on the unary ℕ).
-- Sums and orders go through the two parts of an integer, which are numbers that `omega` reads.
use Prim.Native.Nat.{ℕ, suc, ◌+◌, ◌-◌, ◌*◌, ◌/◌, ◌%◌, ◌≤◌}
use mathlib.Core.Path.{◌≡◌, refl, sym, ap, ◌∙◌}
use mathlib.Core.List.{List, [], ◌∷◌, ◌++◌, map}
use mathlib.Core.Bool.{Bool, true, false}
use native.Mathlib.Omega.{arith}
use jsyxi_shipping.Prelude.Tests.{ltb, leb, ◌==◌, if◌then◌else◌}

-- `negsuc n` is -(n + 1).
pub data ℤ : Type 0 where
  pos : ℕ → ℤ
  negsuc : ℕ → ℤ

abbrev pub pos_part : ℤ → ℕ
pos_part (pos n) = n
pos_part (negsuc n) = 0

abbrev pub neg_part : ℤ → ℕ
neg_part (pos n) = 0
neg_part (negsuc n) = suc n

-- a - b, as an integer.
abbrev pub sub_ℕ : ℕ → ℕ → ℤ
sub_ℕ a b = if leb b a then pos (a - b) else negsuc (b - a - 1)

infixl 65 ◌+ℤ◌ ◌-ℤ◌
infixl 70 ◌*ℤ◌
infix 50 ◌≤ℤ◌
unfoldable pub ◌+ℤ◌ : ℤ → ℤ → ℤ
a +ℤ b = sub_ℕ (pos_part a + pos_part b) (neg_part a + neg_part b)

unfoldable pub ◌-ℤ◌ : ℤ → ℤ → ℤ
a -ℤ b = sub_ℕ (pos_part a + neg_part b) (neg_part a + pos_part b)

unfoldable pub ◌*ℤ◌ : ℤ → ℤ → ℤ
a *ℤ b =
    sub_ℕ (pos_part a * pos_part b + neg_part a * neg_part b)
      (pos_part a * neg_part b + neg_part a * pos_part b)

abbrev pub ◌≤ℤ◌ : ℤ → ℤ → Type 0
a ≤ℤ b = pos_part a + neg_part b ≤ pos_part b + neg_part a

abbrev pub ltb_ℤ : ℤ → ℤ → Bool
ltb_ℤ a b = ltb (pos_part a + neg_part b) (pos_part b + neg_part a)

abbrev pub leb_ℤ : ℤ → ℤ → Bool
leb_ℤ a b = leb (pos_part a + neg_part b) (pos_part b + neg_part a)

abbrev pub eq_ℤ : ℤ → ℤ → Bool
eq_ℤ a b = pos_part a + neg_part b == pos_part b + neg_part a

unfoldable pub neg : ℤ → ℤ
neg a = sub_ℕ (neg_part a) (pos_part a)

-- BigInt division truncates towards zero.
unfoldable pub quot : ℤ → ℕ → ℤ
quot a d = if leb (neg_part a) 0 then pos (pos_part a / d) else sub_ℕ 0 (neg_part a / d)

unfoldable pub rem : ℤ → ℕ → ℤ
rem a d = if leb (neg_part a) 0 then pos (pos_part a % d) else sub_ℕ 0 (neg_part a % d)

pub quot-pos : (n d : ℕ) → quot (pos n) d ≡ pos (n / d)
unfolding quot
quot-pos n d = refl

pub rem-pos : (n d : ℕ) → rem (pos n) d ≡ pos (n % d)
unfolding rem
rem-pos n d = refl

-- One lemma for each operation lets `omega` work with the operations shut, at any depth.
pub +ℤ_parts :
    (a b : ℤ)
    → pos_part (a +ℤ b) + neg_part a + neg_part b ≡ neg_part (a +ℤ b) + pos_part a + pos_part b
unfolding ◌+ℤ◌
+ℤ_parts a b = ground arith

pub -ℤ_parts :
    (a b : ℤ)
    → pos_part (a -ℤ b) + neg_part a + pos_part b ≡ neg_part (a -ℤ b) + pos_part a + neg_part b
unfolding ◌-ℤ◌
-ℤ_parts a b = ground arith

pub eq_of_parts : (a b : ℤ) → pos_part a + neg_part b ≡ pos_part b + neg_part a → a ≡ b
eq_of_parts a b h = ground arith

pub ruleset int_laws = (arith, +ℤ_parts, -ℤ_parts, eq_of_parts)

pub +ℤ_comm : (a b : ℤ) → a +ℤ b ≡ b +ℤ a
+ℤ_comm a b = omega int_laws

pub +ℤ_assoc : (a b c : ℤ) → a +ℤ b +ℤ c ≡ a +ℤ (b +ℤ c)
+ℤ_assoc a b c = omega int_laws

pub +ℤ_zero : (a : ℤ) → a +ℤ pos 0 ≡ a
+ℤ_zero a = omega int_laws

pub pos_add : (m n : ℕ) → pos m +ℤ pos n ≡ pos (m + n)
unfolding ◌+ℤ◌
pos_add m n = ground arith

pub pos_mul : (m n : ℕ) → pos m *ℤ pos n ≡ pos (m * n)
unfolding ◌*ℤ◌
pos_mul m n = ground arith

abbrev pub sum_ℕ : List ℕ → ℕ
sum_ℕ [] = 0
sum_ℕ (n ∷ ns) = n + sum_ℕ ns

-- The sum of a list: `reduce((acc, c) => acc + c, 0n)`.
pub sum_from : ℤ → List ℤ → ℤ
sum_from acc [] = acc
sum_from acc (x ∷ xs) = sum_from (acc +ℤ x) xs

unfoldable pub sum : List ℤ → ℤ
unfolding sum_from
sum = sum_from (pos 0)

sum_from-eq : (acc : ℤ) (xs : List ℤ) → sum_from acc xs ≡ acc +ℤ sum_from (pos 0) xs
unfolding sum_from
sum_from-eq acc [] = omega int_laws
sum_from-eq acc (x ∷ xs) =
    let rest = sum_from (pos 0) xs in
    sum_from-eq (acc +ℤ x) xs
    ∙ omega int_laws
    ∙ ap (λ t. acc +ℤ t) (sym (sum_from-eq (pos 0 +ℤ x) xs))

pub sum-nil : sum [] ≡ pos 0
unfolding sum
sum-nil = refl

pub sum-cons : (x : ℤ) (xs : List ℤ) → sum (x ∷ xs) ≡ x +ℤ sum xs
unfolding sum
sum-cons x xs = sum_from-eq (pos 0 +ℤ x) xs ∙ ap (λ t. t +ℤ sum_from (pos 0) xs) (omega int_laws)

pub sum-append : (xs ys : List ℤ) → sum (xs ++ ys) ≡ sum xs +ℤ sum ys
sum-append [] ys = rw sum-nil (omega int_laws)
sum-append (x ∷ xs) ys =
    rw (sum-cons x (xs ++ ys), sum-append xs ys, sum-cons x xs) (omega int_laws)

pub ltb_ℤ-pos : (m n : ℕ) → ltb_ℤ (pos m) (pos n) ≡ ltb m n
ltb_ℤ-pos m n = ground arith

pub leb_ℤ-pos : (m n : ℕ) → leb_ℤ (pos m) (pos n) ≡ leb m n
leb_ℤ-pos m n = ground arith

pub if_pos : (b : Bool) (m n : ℕ) → (if b then pos m else pos n) ≡ pos (if b then m else n)
if_pos true m n = refl
if_pos false m n = refl

pub sum-map_pos {ℓ} :
    {A : Type ℓ} (f : A → ℕ) (xs : List A) → sum (map (λ x. pos (f x)) xs) ≡ pos (sum_ℕ (map f xs))
sum-map_pos f [] = sum-nil
sum-map_pos f (x ∷ xs) = rw (sum-cons, sum-map_pos f xs) (pos_add (f x) (sum_ℕ (map f xs)))
