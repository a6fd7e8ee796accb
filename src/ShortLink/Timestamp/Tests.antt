-- ===== src/ShortLink/Timestamp/Tests.antt =====
-- The calendar at concrete dates.
use hao_short_link.Prelude.{arith, bytes_eq, codes, nat_eq, none, refl, some, ◌+◌, ◌≡◌}
use hao_short_link.Prelude.Int.{int_eq, pos, ◌+ℤ◌, ◌-ℤ◌}
use hao_short_link.ShortLink.Record.{status_eq}
use hao_short_link.ShortLink.Timestamp.{
  at_is, days_from_civil, days_from_march, days_in_month, format_utc_timestamp, is_leap_year,
  parse_digits, parse_from, parse_utc_timestamp, seconds_of,
}
use hao_short_link.ShortLink.Timestamp.Days.{days_from_civil-days, days_to_month, days_to_year}
use hao_short_link.ShortLink.Timestamp.RoundTrip.{parse-format_utc_timestamp}

leap : parse_utc_timestamp (codes "2024-02-29T12:00:00Z") ≡ some (pos 1709208000)
unfolding parse_utc_timestamp parse_digits parse_from at_is seconds_of days_in_month is_leap_year
    days_from_civil days_from_march ◌+ℤ◌ ◌-ℤ◌
leap = refl

no_leap : parse_utc_timestamp (codes "2023-02-29T12:00:00Z") ≡ none
unfolding parse_utc_timestamp parse_digits parse_from at_is seconds_of days_in_month is_leap_year
    days_from_civil days_from_march ◌+ℤ◌ ◌-ℤ◌
no_leap = refl

-- 2024-02-29 is 54 years, one month and 28 days after 1970-01-01.
days_from_civil-days_example :
    days_from_civil (pos (1970 + 54)) 2 29
    ≡ pos (days_to_year 54 + days_to_month (1970 + 54) 1 + 28)
days_from_civil-days_example =
    days_from_civil-days 54 1 28 (omega arith) (omega arith) (omega arith)

parse-format_utc_timestamp_example :
    parse_utc_timestamp (format_utc_timestamp 1709208000) ≡ some (pos 1709208000)
parse-format_utc_timestamp_example = parse-format_utc_timestamp 1709208000 (omega arith)
