-- ===== src/Rules/LocalTime.antt =====
-- src/modules/rules/evaluate.ts: weekdays and wall time of the shop.
use jsyxi_shipping.Prelude.{
  ℕ, ◌+◌, ◌-◌, ◌*◌, ◌%◌, Bool, ◌&&◌, ◌||◌, Option, none, some, List, [], ◌∷◌, Text, codes, take,
  is_digit, trim, text_eq, leb, ◌==◌, if◌then◌else◌,
}
use jsyxi_shipping.Prelude.Int.{ℤ, pos}
use jsyxi_shipping.Rules.Model.{
  WeekdayCode, mon, tue, wed, thu, fri, sat, sun, FormatPart, weekday_part, hour_part, minute_part,
  other_part, Host, LocalParts,
}

unfoldable pub weekday_from_short : Text → Option WeekdayCode
weekday_from_short short =
    if text_eq short (codes "mon")
    then some mon
    else if text_eq short (codes "tue")
    then some tue
    else if text_eq short (codes "wed")
    then some wed
    else if text_eq short (codes "thu")
    then some thu
    else if text_eq short (codes "fri")
    then some fri
    else if text_eq short (codes "sat")
    then some sat
    else if text_eq short (codes "sun")
    then some sun
    else none

abbrev pub or_monday : Option WeekdayCode → WeekdayCode
or_monday none = mon
or_monday (some day) = day

-- `[…][n - 1]` for an integer from 1 to 7
abbrev pub weekday_number : ℕ → Option WeekdayCode
weekday_number n =
    if n == 1
    then some mon
    else if n == 2
    then some tue
    else if n == 3
    then some wed
    else if n == 4
    then some thu
    else if n == 5
    then some fri
    else if n == 6
    then some sat
    else if n == 7
    then some sun
    else none

abbrev pub weekday_of_integer : Option ℤ → Option WeekdayCode
weekday_of_integer (some (pos n)) = weekday_number n
weekday_of_integer _ = none

abbrev pub or_else_weekday : Option WeekdayCode → Option WeekdayCode → Option WeekdayCode
or_else_weekday (some day) other = some day
or_else_weekday none other = other

abbrev pub hour_ok : ℕ → ℕ → Bool
hour_ok a b = ((a == b'0' || a == b'1') && is_digit b) || (a == b'2' && leb b'0' b && leb b b'3')

abbrev pub minute_ok : ℕ → ℕ → Bool
minute_ok a b = leb b'0' a && leb a b'5' && is_digit b

abbrev pub two_digits : ℕ → ℕ → ℕ
two_digits a b = (a - b'0') * 10 + (b - b'0')

-- `/^([01]?\d|2[0-3]):([0-5]\d)$/`
unfoldable pub clock_minutes : Text → Option ℕ
clock_minutes (a ∷ c ∷ d ∷ e ∷ []) =
    if is_digit a && c == b':' && minute_ok d e
    then some ((a - b'0') * 60 + two_digits d e)
    else none
clock_minutes (a ∷ b ∷ c ∷ d ∷ e ∷ []) =
    if hour_ok a b && c == b':' && minute_ok d e
    then some (two_digits a b * 60 + two_digits d e)
    else none
clock_minutes _ = none

unfoldable pub parse_time_of_day : Text → Option ℕ
parse_time_of_day value = clock_minutes (trim value)

module _ (host : Host) where
  -- The loop over the parts, with `weekday`, `hour` and `minute` as they stand.
  unfoldable pub read_parts : WeekdayCode → ℕ → ℕ → List FormatPart → LocalParts
  read_parts day hour minute [] = record { day = day; minutes_of_day = hour * 60 + minute }
  read_parts day hour minute (weekday_part value ∷ parts) =
      read_parts (or_monday (weekday_from_short (host.to_lower_case value))) hour minute parts
  read_parts day hour minute (hour_part n ∷ parts) = read_parts day (n % 24) minute parts
  read_parts day hour minute (minute_part n ∷ parts) = read_parts day hour n parts
  read_parts day hour minute (other_part ∷ parts) = read_parts day hour minute parts

  unfoldable pub shop_local_parts : ℤ → Text → LocalParts
  unfolding read_parts
  shop_local_parts now time_zone = read_parts mon 0 0 (host.format_to_parts now time_zone)

  unfoldable pub normalize_weekday : Text → Option WeekdayCode
  normalize_weekday value =
      let v = host.to_upper_case (trim value) in
      or_else_weekday (weekday_from_short (host.to_lower_case (take 3 v)))
        (weekday_of_integer (host.integer_of v))
