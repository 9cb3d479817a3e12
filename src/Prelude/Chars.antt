-- ===== src/Prelude/Chars.antt =====
-- Text as a list of UTF-16 code units, with what the program uses of strings, regular expressions
-- and BigInt literals: trim, padStart, slice, decimal printing and parsing.
use Prim.Native.Nat.{ℕ, zero, suc, ◌+◌, ◌-◌, ◌*◌, ◌/◌, ◌%◌}
use Prim.Native.Char.{code}
use Prim.Native.String.{String}
use mathlib.Core.Bool.{Bool, true, false, not, ◌&&◌, ◌||◌}
use mathlib.Core.Option.{Option, none, some}
use mathlib.Core.List.{List, [], ◌∷◌, ◌++◌, reverse}
use jsyxi_shipping.Prelude.Tests.{leb, ◌==◌, ltb, if◌then◌else◌}
use jsyxi_shipping.Prelude.Lists.{length, is_empty, all, replicate, take}

abbrev pub Text : Type 0
Text = List ℕ

abbrev pub codes : String → Text
codes String.[] = []
codes (String.◌∷◌ c s) = code c ∷ codes s

unfoldable pub text_eq : Text → Text → Bool
text_eq [] [] = true
text_eq [] (_ ∷ _) = false
text_eq (_ ∷ _) [] = false
text_eq (a ∷ s) (b ∷ t) = a == b && text_eq s t

abbrev pub is_digit : ℕ → Bool
is_digit c = leb b'0' c && leb c b'9'

-- The characters that String.prototype.trim strips.
unfoldable pub is_space : ℕ → Bool
is_space c =
    (leb 9 c && leb c 13)
    || c == 32
    || c == 160
    || c == 5760
    || (leb 8192 c && leb c 8202)
    || c == 8232
    || c == 8233
    || c == 8239
    || c == 8287
    || c == 12288
    || c == 65279

unfoldable pub drop_spaces : Text → Text
drop_spaces [] = []
drop_spaces (c ∷ s) = let rest = drop_spaces s in if is_space c then rest else c ∷ s

unfoldable pub trim : Text → Text
unfolding drop_spaces
trim s = reverse (drop_spaces (reverse (drop_spaces s)))

-- The longest prefix of digits, and the rest: a greedy `(\d+)`.
unfoldable pub span_digits : Text → Text × Text
span_digits [] = ([], [])
span_digits (c ∷ s) =
    let (w, rest) = span_digits s in if is_digit c then (c ∷ w, rest) else ([], c ∷ s)

-- BigInt of a run of digits.
unfoldable pub digits_value_from : ℕ → Text → ℕ
digits_value_from acc [] = acc
digits_value_from acc (c ∷ s) = digits_value_from (acc * 10 + (c - b'0')) s

unfoldable pub digits_value : Text → ℕ
unfolding digits_value_from
digits_value = digits_value_from 0

-- Decimal printing of a number, on fuel above it.
unfoldable pub digits_of : ℕ → ℕ → Text
digits_of zero n = []
digits_of (suc f) n = elim (ltb n 10) [
  | true ↦ (b'0' + n) ∷ []
  | false ↦ digits_of f (n / 10) ++ (b'0' + n % 10) ∷ []
]

unfoldable pub to_text : ℕ → Text
unfolding digits_of
to_text n = digits_of (suc n) n

abbrev pub pad_start : ℕ → ℕ → Text → Text
pad_start n c s = replicate (n - length s) c ++ s

-- The groups of `^(\d+)(?:\.(\d{1,k}))?$`: the whole part and the fraction, '' where absent.
unfoldable pub fraction : ℕ → Text → Text → Option (Text × Text)
fraction k w [] = some (w, [])
fraction k w (c ∷ s) =
    if c == b'.' && not (is_empty s) && leb (length s) k && all is_digit s
    then some (w, s)
    else none

unfoldable pub decimal_groups : ℕ → Text → Option (Text × Text)
unfolding span_digits fraction
decimal_groups k s = let (w, rest) = span_digits s in if is_empty w then none else fraction k w rest

-- `(frac + '00…').slice(0, k)`
abbrev pub pad_fraction : ℕ → Text → Text
pad_fraction k frac = take k (frac ++ replicate k b'0')
