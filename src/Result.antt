-- ===== src/Result.antt =====
-- Functions that may throw return a `Result`; a `Fault` stands for one `throw new Error(…)`.
use jsyxi_shipping.Prelude.{
  ℕ, suc, ◌≡◌, refl, subst, Option, none, some, List, [], ◌∷◌, arith, Text, trim, decimal_groups,
}
use jsyxi_shipping.Prelude.Decimal.{scaled, print_decimal, read-print, trim-print, scaled-print}

pub data Fault : Type 0 where
  invalid_money sub_paise invalid_rate invalid_weight invalid_dimension invalid_divisor : Fault
  nonpositive_denominator negative_amount nonpositive_divisor : Fault
  default_profile_count : Fault

pub data Result {ℓ} (A : Type ℓ) : Type ℓ where
  err : Fault → Result A
  ok : A → Result A

pub ok-injective {ℓ} : {A : Type ℓ} {x y : A} → ok x ≡ ok y → x ≡ y
ok-injective p = cc

-- What follows a call that may throw, and the inversion of a chain that returned.
module _ {ℓ κ} {A : Type ℓ} {B : Type κ} where
  infixl 5 ◌>>=◌
  abbrev pub ◌>>=◌ : Result A → (A → Result B) → Result B
  err fault >>= next = err fault
  ok value >>= next = next value

  pub >>=-eq-ok :
      {b : B} (call : Result A) (next : A → Result B)
      → (call >>= next) ≡ ok b
      → (a : A) × (call ≡ ok a) × (next a ≡ ok b)
  >>=-eq-ok (err fault) next returned = cc
  >>=-eq-ok (ok value) next returned = (value, refl, returned)

-- A callback that may throw, mapped over an array.
abbrev pub traverse {ℓ κ} : {A : Type ℓ} {B : Type κ} → (A → Result B) → List A → Result (List B)
traverse f [] = ok []
traverse f (x ∷ xs) = do y ← f x; ys ← traverse f xs; ok (y ∷ ys)

-- What holds of the value, if there is one.
abbrev pub OnOk {ℓ κ} : {A : Type ℓ} → (A → Type κ) → Result A → Type κ
OnOk P (ok a) = P a
OnOk P (err e) = Unit

pub OnOk-bind {ℓ κ} :
    {A B : Type ℓ} (P : B → Type κ) (m : Result A) (f : A → Result B)
    → ((a : A) → m ≡ ok a → OnOk P (f a))
    → OnOk P (m >>= f)
OnOk-bind P (ok a) f k = k a refl
OnOk-bind P (err e) f k = tt

pub of_OnOk {ℓ κ} : {A : Type ℓ} (P : A → Type κ) (m : Result A) {a : A} → OnOk P m → m ≡ ok a → P a
of_OnOk P (ok b) h e = subst P (cc) h
of_OnOk P (err x) h e = cc

scaled_groups : ℕ → Fault → Option (Text × Text) → Result ℕ
scaled_groups k e none = err e
scaled_groups k e (some groups) = ok (scaled k groups)

-- `/^(\d+)(?:\.(\d{1,k}))?$/` on the trimmed text, as an integer number of 10^-k units.
unfoldable pub of_scaled : ℕ → Fault → Text → Result ℕ
unfolding scaled_groups
of_scaled k e value = scaled_groups k e (decimal_groups k (trim value))

-- What is printed at k decimal places reads back.
pub of_scaled-print :
    (k : ℕ) (e : Fault) (n : ℕ) → of_scaled (suc k) e (print_decimal (suc k) n) ≡ ok n
unfolding of_scaled
of_scaled-print k e n = rw (trim-print, read-print k (suc k) n (omega arith), scaled-print)

-- The call returns, and with a value of which `P` holds.
abbrev pub Returns {ℓ} : {A : Type ℓ} → (A → Type 0) → Result A → Type 0
Returns P (ok a) = P a
Returns P (err e) = ⊥

pub Returns-bind {ℓ κ} :
    {A : Type ℓ} {B : Type κ} (Q : A → Type 0) (P : B → Type 0) (m : Result A) (f : A → Result B)
    → Returns Q m
    → ((a : A) → Q a → Returns P (f a))
    → Returns P (m >>= f)
Returns-bind Q P (ok a) f q k = k a q
Returns-bind Q P (err e) f q k = absurd q
