-- ===== src/ShortLink/Timestamp.antt =====
-- apps/shortlink_server: the calendar of src/ShortLinkService.cpp, `parseUtcTimestamp` and
-- `formatUtcTimestamp` with their helpers. A parsed number is not negative, so it is in ℕ;
-- `days_from_civil` counts in ℤ, and its unsigned steps wrap at 2 ^ 32.
pub mod Days
pub mod Fields
pub mod RoundTrip
mod Tests
use hao_short_link.Prelude.{
  Bool, Bytes, List, Option, [], bytes_eq, codes, drop, false, get_elem?, if◌then◌else◌, leb,
  length, ltb, nat_eq, none, not, some, suc, zero, ℕ, ◌%◌, ◌&&◌, ◌*◌, ◌++◌, ◌+◌, ◌-◌, ◌/◌, ◌==◌,
  ◌>>=◌, ◌^◌, ◌||◌, ◌∷◌,
}
use hao_short_link.Prelude.Int.{
  int_eq, leb_ℤ, neg_part, negsuc, pos, pos_part, sub_ℕ, ℤ, ◌+ℤ◌, ◌-ℤ◌,
}
use hao_short_link.Decimal.{to_string}
use hao_short_link.ShortLink.Metrics.Counts.{count}
use hao_short_link.ShortLink.Record.{status_eq}

unfoldable pub is_leap_year : ℕ → Bool
is_leap_year year = (year % 4 == 0) && (not (year % 100 == 0) || (year % 400 == 0))

-- `days[month - 1]`; the callers have checked the month.
abbrev pub days : List ℕ
days = 31 ∷ 28 ∷ 31 ∷ 30 ∷ 31 ∷ 30 ∷ 31 ∷ 31 ∷ 30 ∷ 31 ∷ 30 ∷ 31 ∷ []

abbrev pub or_zero : Option ℕ → ℕ
or_zero none = 0
or_zero (some n) = n

unfoldable pub days_in_month : ℕ → ℕ → ℕ
days_in_month year month =
    if (month == 2) && is_leap_year year then 29 else or_zero (get_elem? days (month - 1))

-- `static_cast<unsigned>` of an int, and an unsigned result.
abbrev pub to_unsigned : ℤ → ℕ
to_unsigned (pos n) = n % 2 ^ 32
to_unsigned (negsuc n) = 2 ^ 32 - 1 - n % 2 ^ 32

abbrev pub wrap32 : ℕ → ℕ
wrap32 n = n % 2 ^ 32

-- Division towards zero, and a multiple.
abbrev pub divide : ℤ → ℕ → ℤ
divide (pos n) k = pos (n / k)
divide (negsuc n) k = sub_ℕ 0 ((n + 1) / k)

abbrev pub scale : ℕ → ℤ → ℤ
scale k z = sub_ℕ (k * pos_part z) (k * neg_part z)

-- The count, once the month is counted from March.
unfoldable pub days_from_march : ℤ → ℕ → ℕ → ℤ
days_from_march year adjusted_month day =
    let era = divide (if leb_ℤ (pos 0) year then year else year -ℤ pos 399) 400 in
    let year_of_era = to_unsigned (year -ℤ scale 400 era) in
    let day_of_year = wrap32 (wrap32 (153 * adjusted_month + 2) / 5 + day + (2 ^ 32 - 1)) in
    let day_of_era =
      wrap32 (year_of_era * 365 + year_of_era / 4 + (2 ^ 32 - year_of_era / 100) + day_of_year) in
    scale 146097 era +ℤ pos day_of_era -ℤ pos 719468

unfoldable pub days_from_civil : ℤ → ℕ → ℕ → ℤ
days_from_civil year month day =
    days_from_march (if leb month 2 then year -ℤ pos 1 else year)
      (to_unsigned (pos month +ℤ (if ltb 2 month then negsuc 2 else pos 9))) day

-- The loop of `parseDigits`, over the rest of the text. Past the end, which the callers exclude by
-- the size, it fails.
unfoldable pub parse_from : ℕ → ℕ → Bytes → Option ℕ
parse_from parsed zero s = some parsed
parse_from parsed (suc count) [] = none
parse_from parsed (suc count) (c ∷ s) =
    let rest = parse_from (parsed * 10 + (c - b'0')) count s in
    if ltb c b'0' || ltb b'9' c then none else rest

unfoldable pub parse_digits : Bytes → ℕ → ℕ → Option ℕ
parse_digits value begin count = parse_from 0 count (drop begin value)

-- `value[i]`, within bounds.
unfoldable pub at_is : Bytes → ℕ → ℕ → Bool
at_is value i c = elim (get_elem? value i) [ none ↦ false | some d ↦ d == c ]

-- A count of seconds, if the fields are a date and a time of day from 1970 on.
unfoldable pub seconds_of : ℕ → ℕ → ℕ → ℕ → ℕ → ℕ → Option ℤ
seconds_of year month day hour minute second =
    if ltb year 1970
      || ltb month 1
      || ltb 12 month
      || ltb day 1
      || ltb (days_in_month year month) day
      || ltb 23 hour
      || ltb 59 minute
      || ltb 59 second
    then none
    else some (
        scale 86400 (days_from_civil (pos year) month day)
        +ℤ pos (hour * 3600)
        +ℤ pos (minute * 60)
        +ℤ pos second)

unfoldable pub parse_utc_timestamp : Bytes → Option ℤ
parse_utc_timestamp value =
    if not (length value == 20)
      || not (at_is value 4 b'-')
      || not (at_is value 7 b'-')
      || not (at_is value 10 b'T')
      || not (at_is value 13 b':')
      || not (at_is value 16 b':')
      || not (at_is value 19 b'Z')
    then none
    else do
      year ← parse_digits value 0 4
      month ← parse_digits value 5 2
      day ← parse_digits value 8 2
      hour ← parse_digits value 11 2
      minute ← parse_digits value 14 2
      second ← parse_digits value 17 2
      seconds_of year month day hour minute second

-- `gmtime_r`, for a time from 1970 on: the year and the day of the year, then the month and the day
-- of the month, by counting off. A year has 365 days at least, which bounds the first count.
abbrev pub year_days : ℕ → ℕ
year_days year = if is_leap_year year then 366 else 365

unfoldable pub year_from : ℕ → ℕ → ℕ → ℕ × ℕ
year_from zero year day = (year, day)
year_from (suc fuel) year day =
    let rest = year_from fuel (year + 1) (day - year_days year) in
    if ltb day (year_days year) then (year, day) else rest

unfoldable pub month_from : ℕ → ℕ → ℕ → ℕ → ℕ × ℕ
month_from zero year month day = (month, day)
month_from (suc fuel) year month day =
    let rest = month_from fuel year (month + 1) (day - days_in_month year month) in
    if ltb day (days_in_month year month) then (month, day) else rest

-- `%m` and its like: two digits.
abbrev pub two_digits : ℕ → Bytes
two_digits n = (b'0' + n / 10) ∷ (b'0' + n % 10) ∷ []

unfoldable pub format_utc_timestamp : ℕ → Bytes
format_utc_timestamp epoch_seconds =
    let days = epoch_seconds / 86400 in
    let rest = epoch_seconds % 86400 in
    let (year, day_of_year) = year_from (days / 365) 1970 days in
    let (month, day) = month_from 11 year 1 day_of_year in
    to_string year
    ++ codes "-"
    ++ two_digits month
    ++ codes "-"
    ++ two_digits (day + 1)
    ++ codes "T"
    ++ two_digits (rest / 3600)
    ++ codes ":"
    ++ two_digits (rest / 60 % 60)
    ++ codes ":"
    ++ two_digits (rest % 60)
    ++ codes "Z"
