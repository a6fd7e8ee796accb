-- ===== src/ShortLink/Timestamp/RoundTrip.antt =====
-- A printed time is read back.
use hao_short_link.Prelude.{
  Bytes, [], ap, arith, bytes_eq, codes, nat_eq, refl, some, suc, ℕ, ◌%◌, ◌*◌, ◌++◌, ◌+◌, ◌-◌, ◌/◌,
  ◌<◌, ◌∙◌, ◌∷◌, ◌≡◌, ◌≤◌,
}
use hao_short_link.Prelude.Int.{int_eq, pos, ◌+ℤ◌}
use hao_short_link.Decimal.{emit, to_string}
use hao_short_link.Decimal.RoundTrip.{emit_step}
use hao_short_link.ShortLink.Metrics.Counts.{count}
use hao_short_link.ShortLink.Record.{status_eq}
use hao_short_link.ShortLink.Timestamp.{
  at_is, days, days_from_civil, days_in_month, format_utc_timestamp, parse_digits, parse_from,
  parse_utc_timestamp, scale, seconds_of, two_digits, year_from,
}
use hao_short_link.ShortLink.Timestamp.Days.{
  days_from_civil-days, days_to_month, days_to_year, days_to_year-closed,
}
use hao_short_link.ShortLink.Timestamp.Fields.{
  IsMonthDay, IsYearDay, month_from-IsMonthDay, year_from-IsYearDay,
}

emit_more :
    (n : ℕ) (out : Bytes) → 10 ≤ n → emit n n out ≡ emit (n / 10) (n / 10) ((b'0' + n % 10) ∷ out)
emit_more n out h = ground (arith, emit_step n n out (omega arith))

emit_last : (n : ℕ) (out : Bytes) → n < 10 → emit n n out ≡ (b'0' + n % 10) ∷ out
emit_last n out h = ground (arith, emit_step n n out (omega arith))

abbrev four_digits : ℕ → Bytes
four_digits n =
    (b'0' + n / 10 / 10 / 10 % 10)
    ∷ (b'0' + n / 10 / 10 % 10)
    ∷ (b'0' + n / 10 % 10)
    ∷ (b'0' + n % 10)
    ∷ []

to_string-four_digits : (n : ℕ) → 1000 ≤ n → n < 10000 → to_string n ≡ four_digits n
unfolding to_string
to_string-four_digits n h h' =
    emit_more n [] (omega arith)
    ∙ emit_more (n / 10) _ (omega arith)
    ∙ emit_more (n / 10 / 10) _ (omega arith)
    ∙ emit_last (n / 10 / 10 / 10) _ (omega arith)

parse_digit :
    (parsed count d : ℕ) (s : Bytes)
    → d < 10
    → parse_from parsed (suc count) ((b'0' + d) ∷ s) ≡ parse_from (parsed * 10 + d) count s
unfolding parse_from
parse_digit parsed count d s h =
    let same : parsed * 10 + (b'0' + d - b'0') ≡ parsed * 10 + d = omega arith in
    ground (arith, ap (λ (n : ℕ). parse_from n count s) same)

parse_done : (parsed n : ℕ) (s : Bytes) → parsed ≡ n → parse_from parsed 0 s ≡ some n
unfolding parse_from
parse_done parsed n s e = ap some e

parse_two : (n : ℕ) (s : Bytes) → n < 100 → parse_from 0 2 (two_digits n ++ s) ≡ some n
parse_two n s h =
    parse_digit 0 1 (n / 10) _ (omega arith)
    ∙ parse_digit (0 * 10 + n / 10) 0 (n % 10) s (omega arith)
    ∙ parse_done _ n s (omega arith)

parse_four : (n : ℕ) (s : Bytes) → n < 10000 → parse_from 0 4 (four_digits n ++ s) ≡ some n
parse_four n s h =
    parse_digit 0 3 _ _ (omega arith)
    ∙ parse_digit (0 * 10 + n / 10 / 10 / 10 % 10) 2 _ _ (omega arith)
    ∙ parse_digit ((0 * 10 + n / 10 / 10 / 10 % 10) * 10 + n / 10 / 10 % 10) 1 _ _ (omega arith)
    ∙ parse_digit (((0 * 10 + n / 10 / 10 / 10 % 10) * 10 + n / 10 / 10 % 10) * 10 + n / 10 % 10) 0
        (n % 10) s (omega arith)
    ∙ parse_done _ n s (omega arith)

-- The text that the fields are printed as.
abbrev print_fields : ℕ → ℕ → ℕ → ℕ → ℕ → ℕ → Bytes
print_fields year month day hour minute second =
    to_string year
    ++ codes "-"
    ++ two_digits month
    ++ codes "-"
    ++ two_digits day
    ++ codes "T"
    ++ two_digits hour
    ++ codes ":"
    ++ two_digits minute
    ++ codes ":"
    ++ two_digits second
    ++ codes "Z"

parse-print_fields :
    (year month day hour minute second : ℕ)
    → 1000 ≤ year
    → year < 10000
    → month < 100
    → day < 100
    → hour < 100
    → minute < 100
    → second < 100
    → parse_utc_timestamp (print_fields year month day hour minute second)
      ≡ seconds_of year month day hour minute second
unfolding parse_utc_timestamp parse_digits at_is
parse-print_fields year month day hour minute second hy hy' hm hd hh hi hs = rw (
  to_string-four_digits year hy hy',
  parse_four year _ hy',
  parse_two month _ hm,
  parse_two day _ hd,
  parse_two hour _ hh,
  parse_two minute _ hi,
  parse_two second _ hs,
)

pub days_in_month-le : (year m : ℕ) → days_in_month year (suc m) ≤ 31
unfolding days_in_month
days_in_month-le year m = ground arith

seconds_of-valid :
    (k m d hour minute second : ℕ)
    → m < 12
    → d < days_in_month (1970 + k) (suc m)
    → hour < 24
    → minute < 60
    → second < 60
    → seconds_of (1970 + k) (suc m) (suc d) hour minute second
      ≡ some (
          scale 86400 (days_from_civil (pos (1970 + k)) (suc m) (suc d))
          +ℤ pos (hour * 3600)
          +ℤ pos (minute * 60)
          +ℤ pos second)
unfolding seconds_of
seconds_of-valid k m d hour minute second hm hd hh hi hs = ground arith

sum_of_fields :
    (days hour minute second : ℕ)
    → scale 86400 (pos days) +ℤ pos (hour * 3600) +ℤ pos (minute * 60) +ℤ pos second
      ≡ pos (86400 * days + hour * 3600 + minute * 60 + second)
unfolding ◌+ℤ◌
sum_of_fields days hour minute second = ground arith

pub seconds_of-days :
    (k m d hour minute second : ℕ)
    → k < 8030
    → m < 12
    → d < days_in_month (1970 + k) (suc m)
    → hour < 24
    → minute < 60
    → second < 60
    → seconds_of (1970 + k) (suc m) (suc d) hour minute second
      ≡ some (
          pos (
            86400 * (days_to_year k + days_to_month (1970 + k) m + d)
            + hour * 3600
            + minute * 60
            + second))
seconds_of-days k m d hour minute second hk hm hd hh hi hs =
    seconds_of-valid k m d hour minute second hm hd hh hi hs
    ∙ rw (days_from_civil-days k m d hk hm (omega (arith, hd, days_in_month-le (1970 + k) m)))
        (ap some (sum_of_fields _ hour minute second))

-- The last year that has four digits.
year_bound : (k day total : ℕ) → days_to_year k + day ≡ total → total < 2932897 → k < 8030
year_bound k day total e h = omega (arith, days_to_year-closed k)

parse-fields :
    (t k m day_of_year d : ℕ)
    → t < 253402300800
    → IsYearDay (t / 86400) k day_of_year
    → IsMonthDay (1970 + k) day_of_year m d
    → parse_utc_timestamp (
        print_fields
          (1970 + k)
          (suc m)
          (d + 1)
          (t % 86400 / 3600)
          (t % 86400 / 60 % 60)
          (t % 86400 % 60))
      ≡ some (pos t)
parse-fields t k m day_of_year d h in_year in_month =
    let hk = year_bound k day_of_year (t / 86400) in_year.counted (omega arith) in
    let hd = days_in_month-le (1970 + k) m in
    let next : d + 1 ≡ suc d = omega arith in
    let hour = t % 86400 / 3600 in
    let minute = t % 86400 / 60 % 60 in
    let second = t % 86400 % 60 in
    parse-print_fields (1970 + k) (suc m) (d + 1) hour minute second (omega arith) (omega arith)
      (omega (arith, in_month.in_year)) (omega (arith, in_month.within)) (omega arith) (omega arith)
      (omega arith)
    ∙ ap (λ (n : ℕ). seconds_of (1970 + k) (suc m) n hour minute second) next
    ∙ seconds_of-days k m d hour minute second hk in_month.in_year in_month.within (omega arith)
        (omega arith) (omega arith)
    ∙ ap (λ (n : ℕ). some (pos n)) (omega (arith, in_year.counted, in_month.counted))

-- A time from 1970 to the end of the year 9999 is printed as a text that is read back as that time.
pub parse-format_utc_timestamp :
    (t : ℕ) → t < 253402300800 → parse_utc_timestamp (format_utc_timestamp t) ≡ some (pos t)
unfolding format_utc_timestamp
parse-format_utc_timestamp t h =
    let days = t / 86400 in
    let (k, year_is, in_year) =
      year_from-IsYearDay (days / 365) 0 1970 days days refl (omega arith)
        (unfold days_to_year in omega arith) in
    let day_of_year = (year_from (days / 365) 1970 days).1 in
    let (m, month_is, in_month) =
      month_from-IsMonthDay 11 (1970 + k) 0 1 day_of_year day_of_year refl refl
        (unfold days_to_month in omega arith) in_year.within in
    rw (year_is, month_is) (parse-fields t k m day_of_year _ h in_year in_month)
