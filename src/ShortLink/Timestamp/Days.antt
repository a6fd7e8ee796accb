-- ===== src/ShortLink/Timestamp/Days.antt =====
-- `daysFromCivil` against a count of days.
-- The days from 1970-01-01 to the first day of the year 1970 + k, and of the first months of a year.
use hao_short_link.Prelude.{
  ap, arith, bytes_eq, false, if◌then◌else◌, leb, ltb, nat_eq, suc, true, zero, ℕ, ◌%◌, ◌*◌, ◌+◌,
  ◌-◌, ◌/◌, ◌<◌, ◌^◌, ◌≡◌,
}
use hao_short_link.Prelude.Int.{eq_of_parts, int_eq, leb_ℤ, negsuc, pos, ℤ, ◌+ℤ◌, ◌-ℤ◌}
use hao_short_link.ShortLink.Record.{status_eq}
use hao_short_link.ShortLink.Timestamp.{
  days_from_civil, days_from_march, days_in_month, is_leap_year, scale, to_unsigned, wrap32,
  year_days,
}

unfoldable pub days_to_year : ℕ → ℕ
days_to_year zero = 0
days_to_year (suc k) = days_to_year k + year_days (1970 + k)

unfoldable pub days_to_month : ℕ → ℕ → ℕ
days_to_month year zero = 0
days_to_month year (suc m) = days_to_month year m + days_in_month year (suc m)

-- The days of the years before a year, with the leap years counted by division.
abbrev pub leap_count : ℕ → ℕ
leap_count y = y / 4 + y / 400 - y / 100

year_step : (y : ℕ) → year_days (suc y) + 365 * y + leap_count y ≡ 365 * suc y + leap_count (suc y)
unfolding is_leap_year
year_step y = ground arith

pub days_to_year-closed :
    (k : ℕ) → days_to_year k + 719162 ≡ 365 * (1969 + k) + leap_count (1969 + k)
unfolding days_to_year
days_to_year-closed zero = omega arith
days_to_year-closed (suc k) =
    let same : year_days (1970 + k) ≡ year_days (suc (1969 + k)) = ap year_days (omega arith) in
    omega (arith, days_to_year-closed k, year_step (1969 + k), same)

-- The sum over the eras is the count by division.
era_sum :
    (y : ℕ)
    → y / 400 * 146097 + (y % 400 * 365 + y % 400 / 4 - y % 400 / 100) ≡ 365 * y + leap_count y
era_sum y = omega arith

year_of_era : (y : ℕ) → to_unsigned (pos y -ℤ scale 400 (pos (y / 400))) ≡ y % 400 % 2 ^ 32
unfolding ◌-ℤ◌
year_of_era y = ground arith

not_negative : (y : ℕ) → leb_ℤ (pos 0) (pos y) ≡ true
not_negative y = ground arith

pos_sum :
    (y adjusted day : ℕ)
    → y < 10000
    → day < 400
    → adjusted < 12
    → scale 146097 (pos (y / 400))
        +ℤ pos (
            wrap32 (
              y % 400 % 2 ^ 32 * 365
              + y % 400 % 2 ^ 32 / 4
              + (2 ^ 32 - y % 400 % 2 ^ 32 / 100)
              + wrap32 (wrap32 (153 * adjusted + 2) / 5 + suc day + (2 ^ 32 - 1))))
      ≡ pos (365 * y + leap_count y + (153 * adjusted + 2) / 5 + day)
unfolding ◌+ℤ◌
pos_sum y adjusted day hy hd ha = eq_of_parts _ _ (ground (arith, era_sum y))

-- The count of days for a year that starts in March.
days_from_march-pos :
    (y adjusted day : ℕ)
    → y < 10000
    → day < 400
    → adjusted < 12
    → days_from_march (pos y) adjusted (suc day)
      ≡ pos (365 * y + leap_count y + (153 * adjusted + 2) / 5 + day) -ℤ pos 719468
unfolding days_from_march
days_from_march-pos y adjusted day hy hd ha =
    rw (not_negative y, year_of_era y)
      (ap (λ (z : ℤ). z -ℤ pos 719468) (pos_sum y adjusted day hy hd ha))

abbrev pub leap_day : ℕ → ℕ
leap_day year = if is_leap_year year then 1 else 0

-- The length of the month number `m`, counted from March.
month_step :
    (year m : ℕ)
    → m < 10
    → days_in_month year (suc (suc (suc m))) + (153 * m + 2) / 5 ≡ (153 * suc m + 2) / 5
unfolding days_in_month
month_step year m h = ground arith

pub days_to_month-march :
    (year m : ℕ)
    → m < 11
    → days_to_month year (suc (suc m)) ≡ 59 + leap_day year + (153 * m + 2) / 5
unfolding days_to_month days_in_month
days_to_month-march year zero h = ground arith
days_to_month-march year (suc m) h =
    omega (arith, days_to_month-march year m (omega arith), month_step year m (omega arith))

year_before : (k : ℕ) → pos (1970 + k) -ℤ pos 1 ≡ pos (1969 + k)
unfolding ◌-ℤ◌
year_before k = ground arith

month_from_march : (m : ℕ) → m < 10 → to_unsigned (pos (suc (suc (suc m))) +ℤ negsuc 2) ≡ m
unfolding ◌+ℤ◌
month_from_march m h = ground arith

later_month : (m : ℕ) → (leb (suc (suc (suc m))) 2 ≡ false) × (ltb 2 (suc (suc (suc m))) ≡ true)
later_month m = ground arith

next_year :
    (k : ℕ)
    → 365 * (1970 + k) + leap_count (1970 + k) ≡ days_to_year k + 719162 + 365 + leap_day (1970 + k)
next_year k =
    let same : year_days (1970 + k) ≡ year_days (suc (1969 + k)) = ap year_days (omega arith) in
    ground (arith, days_to_year-closed k, year_step (1969 + k), same)

settle : (n total : ℕ) → n ≡ total + 719468 → pos n -ℤ pos 719468 ≡ pos total
unfolding ◌-ℤ◌
settle n total e = ground arith

-- The day number that the program computes from the calendar's closed formula is the day count: the
-- days of the years since 1970, of the months before the month, and the days before the day. Years
-- from 1970 to 9999.
pub days_from_civil-days :
    (k m d : ℕ)
    → k < 8030
    → m < 12
    → d < 31
    → days_from_civil (pos (1970 + k)) (suc m) (suc d)
      ≡ pos (days_to_year k + days_to_month (1970 + k) m + d)
unfolding days_from_civil days_to_month days_in_month days_from_march days_to_year ◌-ℤ◌ ◌+ℤ◌
days_from_civil-days k zero d hk hm hd =
    rw
      (year_before k, days_from_march-pos (1969 + k) 10 d (omega arith) (omega arith) (omega arith))
      (settle _ _ (omega (arith, days_to_year-closed k)))
days_from_civil-days k (suc zero) d hk hm hd =
    rw
      (year_before k, days_from_march-pos (1969 + k) 11 d (omega arith) (omega arith) (omega arith))
      (settle _ _ (ground (arith, days_to_year-closed k)))
days_from_civil-days k (suc (suc m)) d hk hm hd =
    rw
      (
        (later_month m).0,
        (later_month m).1,
        month_from_march m (omega arith),
        days_from_march-pos (1970 + k) m d (omega arith) (omega arith) (omega arith),
      )
      (settle _ _ (omega (arith, next_year k, days_to_month-march (1970 + k) m (omega arith))))
