-- ===== src/Prelude/Decimal.antt =====
-- Decimal printing and parsing are inverse: the facts behind the round trips of money, weights and
-- rates.
use Prim.Native.Nat.{ℕ, zero, suc, ◌+◌, ◌-◌, ◌*◌, ◌/◌, ◌%◌, ◌≤◌, ◌<◌}
use mathlib.Core.Path.{◌≡◌, refl, ◌∙◌}
use mathlib.Core.Bool.{true, false}
use mathlib.Core.Option.{some}
use mathlib.Core.List.{[], ◌∷◌, ◌++◌, reverse, reverse_aux, reverse-reverse}
use native.Mathlib.Omega.{arith}
use native.Mathlib.Decide.{dec_lt}
use native.Mathlib.Nat.{div-add-mod'}
use jsyxi_shipping.Prelude.Lists.{
  length, is_empty, all, replicate, All, All-append, All-replicate, All-weaken, length-append,
  length-replicate, take-append_length,
}
use jsyxi_shipping.Prelude.Chars.{
  Text, is_digit, is_space, drop_spaces, trim, span_digits, digits_value_from, digits_value,
  digits_of, to_text, pad_start, fraction, decimal_groups, pad_fraction,
}

-- A power of ten that `omega` multiplies out.
abbrev pub pow10 : ℕ → ℕ
pow10 zero = 1
pow10 (suc k) = 10 * pow10 k

abbrev pub IsDigit : ℕ → Type 0
IsDigit c = is_digit c ≡ true

value_from-append :
    (acc : ℕ) (s t : Text)
    → digits_value_from acc (s ++ t) ≡ digits_value_from (digits_value_from acc s) t
unfolding digits_value_from
value_from-append acc [] t = refl
value_from-append acc (c ∷ s) t = value_from-append (acc * 10 + (c - b'0')) s t

digits_of_small : (f n : ℕ) → n < 10 → digits_of (suc f) n ≡ (b'0' + n) ∷ []
unfolding digits_of
digits_of_small f n h = ground arith

digits_of_big :
    (f n : ℕ) → 10 ≤ n → digits_of (suc f) n ≡ digits_of f (n / 10) ++ (b'0' + n % 10) ∷ []
unfolding digits_of
digits_of_big f n h = ground arith

value_from-digits_of : (f n : ℕ) → n < f → digits_value_from 0 (digits_of f n) ≡ n
value_from-digits_of zero n h = elim h [ ]
value_from-digits_of (suc f) n h = elim (dec_lt n 10) [
  | yes small ↦ rw (digits_of_small f n small) (unfold digits_value_from in omega arith)
  | no big ↦
      rw
        (
          digits_of_big f n (omega arith),
          value_from-append,
          value_from-digits_of f (n / 10) (omega arith),
        )
        (unfold digits_value_from in omega arith)
]

All-digits_of : (f n : ℕ) → All IsDigit (digits_of f n)
All-digits_of zero n = unfold digits_of in tt
All-digits_of (suc f) n = elim (dec_lt n 10) [
  | yes small ↦ rw (digits_of_small f n small) (ground arith, tt)
  | no big ↦
      rw (digits_of_big f n (omega arith))
        (All-append IsDigit (digits_of f (n / 10)) _ (All-digits_of f (n / 10)) (ground arith, tt))
]

-- A number below 10^k prints on at most k digits.
length-digits_of : (k f n : ℕ) → n < pow10 (suc k) → length (digits_of f n) ≤ suc k
length-digits_of k zero n h = unfold digits_of in omega arith
length-digits_of zero (suc f) n h = rw (digits_of_small f n (omega arith)) (omega arith)
length-digits_of (suc k) (suc f) n h = elim (dec_lt n 10) [
  | yes small ↦ rw (digits_of_small f n small) (omega arith)
  | no big ↦
      rw (digits_of_big f n (omega arith), length-append)
        (omega (arith, length-digits_of k f (n / 10) (omega arith)))
]

pub to_text-IsDigit : (n : ℕ) → All IsDigit (to_text n)
unfolding to_text
to_text-IsDigit n = All-digits_of (suc n) n

-- Reading back what is printed.
pub digits_value-to_text : (n : ℕ) → digits_value (to_text n) ≡ n
unfolding digits_value to_text
digits_value-to_text n = value_from-digits_of (suc n) n (omega arith)

pub length-to_text : (k n : ℕ) → n < pow10 (suc k) → length (to_text n) ≤ suc k
unfolding to_text
length-to_text k n h = length-digits_of k (suc n) n h

is_empty-append_cons : (s : Text) (c : ℕ) (t : Text) → is_empty (s ++ c ∷ t) ≡ false
is_empty-append_cons [] c t = refl
is_empty-append_cons (_ ∷ _) c t = refl

pub is_empty-to_text : (n : ℕ) → is_empty (to_text n) ≡ false
unfolding to_text
is_empty-to_text n = elim (dec_lt n 10) [
  | yes small ↦ rw (digits_of_small n n small)
  | no big ↦ rw (digits_of_big n n (omega arith)) (is_empty-append_cons _ (b'0' + n % 10) [])
]

value_from-replicate :
    (j : ℕ) (s : Text) → digits_value_from 0 (replicate j b'0' ++ s) ≡ digits_value_from 0 s
unfolding digits_value_from
value_from-replicate zero s = refl
value_from-replicate (suc j) s = value_from-replicate j s

pub digits_value-pad_start : (j n : ℕ) → digits_value (pad_start j b'0' (to_text n)) ≡ n
unfolding digits_value
digits_value-pad_start j n =
    value_from-replicate (j - length (to_text n)) (to_text n) ∙ digits_value-to_text n

pub length-pad_start :
    (k n : ℕ) → n < pow10 (suc k) → length (pad_start (suc k) b'0' (to_text n)) ≡ suc k
length-pad_start k n h = omega (
  arith,
  length-to_text k n h,
  length-append (replicate (suc k - length (to_text n)) b'0') (to_text n),
  length-replicate {A = ℕ} (suc k - length (to_text n)) b'0',
)

pub IsDigit-pad_start : (j n : ℕ) → All IsDigit (pad_start j b'0' (to_text n))
IsDigit-pad_start j n =
    All-append IsDigit (replicate (j - length (to_text n)) b'0') (to_text n)
      (All-replicate IsDigit (j - length (to_text n)) b'0' refl) (to_text-IsDigit n)

pub span_digits-append :
    (s : Text) (c : ℕ) (t : Text)
    → All IsDigit s
    → is_digit c ≡ false
    → span_digits (s ++ c ∷ t) ≡ (s, c ∷ t)
unfolding span_digits
span_digits-append [] c t h e = rw e
span_digits-append (d ∷ s) c t (h, hs) e = rw (span_digits-append s c t hs e, h)

all-of_All : (s : Text) → All IsDigit s → all is_digit s ≡ true
all-of_All [] h = refl
all-of_All (d ∷ s) (h, hs) = rw (h, all-of_All s hs)

-- A printed number, a point and up to k digits are what the regular expression accepts.
pub decimal_groups_lem :
    (k n : ℕ) (f : Text)
    → All IsDigit f
    → 0 < length f
    → length f ≤ k
    → decimal_groups k (to_text n ++ b'.' ∷ f) ≡ some (to_text n, f)
unfolding decimal_groups
decimal_groups_lem k n [] h pos le = absurd (omega arith)
decimal_groups_lem k n (c ∷ f) h pos le =
    rw
      (
        span_digits-append (to_text n) b'.' (c ∷ f) (to_text-IsDigit n) refl,
        is_empty-to_text n,
        all-of_All (c ∷ f) h,
      )
      (unfold fraction in ground (arith, all-of_All (c ∷ f) h))

abbrev pub NoSpace : ℕ → Type 0
NoSpace c = is_space c ≡ false

digit-NoSpace : (c : ℕ) → IsDigit c → NoSpace c
unfolding is_space
digit-NoSpace c h = ground arith

drop_spaces_id : (s : Text) → All NoSpace s → drop_spaces s ≡ s
unfolding drop_spaces
drop_spaces_id [] h = refl
drop_spaces_id (c ∷ s) (h, hs) = rw h

All-reverse_aux : (P : ℕ → Type 0) (s acc : Text) → All P s → All P acc → All P (reverse_aux s acc)
All-reverse_aux P [] acc h k = k
All-reverse_aux P (c ∷ s) acc (h, hs) k = All-reverse_aux P s (c ∷ acc) hs (h, k)

-- Trimming changes nothing where there is no space.
pub trim_id : (s : Text) → All NoSpace s → trim s ≡ s
unfolding trim
trim_id s h = rw (
  drop_spaces_id s h,
  drop_spaces_id (reverse s) (All-reverse_aux NoSpace s [] h tt),
  reverse-reverse,
)

-- A printed decimal: digits, a point, digits.
pub decimal-NoSpace : (n : ℕ) (f : Text) → All IsDigit f → All NoSpace (to_text n ++ b'.' ∷ f)
unfolding is_space
decimal-NoSpace n f h =
    All-append NoSpace (to_text n) (b'.' ∷ f)
      (All-weaken IsDigit NoSpace (to_text n) digit-NoSpace (to_text-IsDigit n))
      (refl, All-weaken IsDigit NoSpace f digit-NoSpace h)

-- The value at k decimal places of what a text's groups denote.
unfoldable pub scaled : ℕ → Text × Text → ℕ
scaled k (w, f) = digits_value w * pow10 k + digits_value (pad_fraction k f)

unfoldable pub print_decimal : ℕ → ℕ → Text
print_decimal k n = to_text (n / pow10 k) ++ b'.' ∷ pad_start k b'0' (to_text (n % pow10 k))

pow10_pos : (k : ℕ) → 0 < pow10 k
pow10_pos zero = omega arith
pow10_pos (suc k) = omega (arith, pow10_pos k)

abbrev pub printed_groups : ℕ → ℕ → Text × Text
printed_groups k n = (to_text (n / pow10 k), pad_start k b'0' (to_text (n % pow10 k)))

mod_lt_pow10 : (k n : ℕ) → n % pow10 (suc k) < pow10 (suc k)
mod_lt_pow10 k n = grind (arith, pow10_pos (suc k))

pub length-printed : (k n : ℕ) → length (printed_groups (suc k) n).1 ≡ suc k
length-printed k n = length-pad_start k (n % pow10 (suc k)) (mod_lt_pow10 k n)

-- Reading a printed decimal gives the groups it was printed from, trimmed or not.
pub read-print :
    (k m n : ℕ)
    → suc k ≤ m
    → decimal_groups m (print_decimal (suc k) n) ≡ some (printed_groups (suc k) n)
unfolding print_decimal
read-print k m n h =
    decimal_groups_lem m (n / pow10 (suc k)) _ (IsDigit-pad_start (suc k) (n % pow10 (suc k)))
      (omega (arith, length-printed k n)) (omega (arith, length-printed k n))

pub trim-print : (k n : ℕ) → trim (print_decimal k n) ≡ print_decimal k n
unfolding print_decimal
trim-print k n = trim_id _ (decimal-NoSpace (n / pow10 k) _ (IsDigit-pad_start k (n % pow10 k)))

pub scaled-print : (k n : ℕ) → scaled (suc k) (printed_groups (suc k) n) ≡ n
unfolding scaled
scaled-print k n =
    rw
      (
        digits_value-to_text,
        take-append_length (suc k) _ (replicate (suc k) b'0') (length-printed k n),
        digits_value-pad_start,
      )
      (div-add-mod' n (pow10 (suc k)))
