-- ===== src/ShortLink/Timestamp/Fields.antt =====
-- `gmtime_r`: the fields of a time stand for it.
use hao_short_link.Prelude.{
  Bool-cases, ap, arith, bytes_eq, false, inl, inr, ltb, nat_eq, suc, true, zero, ℕ, ◌*◌, ◌+◌, ◌-◌,
  ◌<◌, ◌≡◌, ◌≤◌,
}
use hao_short_link.Prelude.Int.{int_eq}
use hao_short_link.ShortLink.Record.{status_eq}
use hao_short_link.ShortLink.Timestamp.{days_in_month, month_from, year_days, year_from}
use hao_short_link.ShortLink.Timestamp.Days.{days_to_month, days_to_month-march, days_to_year}

ltb-lt : (a b : ℕ) → ltb a b ≡ true → a < b
ltb-lt a b e = ground arith

ltb-ge : (a b : ℕ) → ltb a b ≡ false → b ≤ a
ltb-ge a b e = ground arith

pub record IsYearDay (total : ℕ) (k day : ℕ) : Type 0 where
  pub counted : days_to_year k + day ≡ total
  pub within : day < year_days (1970 + k)

pub year_from-IsYearDay :
    (fuel k y day total : ℕ)
    → y ≡ 1970 + k
    → day < 365 * suc fuel
    → days_to_year k + day ≡ total
    → (j : ℕ) × ((year_from fuel y day).0 ≡ 1970 + j) × IsYearDay total j (year_from fuel y day).1
unfolding year_from
year_from-IsYearDay zero k y day total e h c = (k, e, record { counted = c; within = ground arith })
year_from-IsYearDay (suc fuel) k y day total e h c =
    let same : year_days y ≡ year_days (1970 + k) = ap year_days e in
    elim (Bool-cases (ltb day (year_days y))) [
      | inl here ↦
          rw (year_from, here)
            (k, e, record { counted = c; within = omega (arith, ltb-lt _ _ here, same) })
      | inr later ↦
          rw (year_from, later)
            (year_from-IsYearDay fuel (suc k) (y + 1) (day - year_days y) total (omega arith)
              (ground (arith, ltb-ge _ _ later))
              (unfold days_to_year in omega (arith, ltb-ge _ _ later, same)))
    ]

pub record IsMonthDay (year total m day : ℕ) : Type 0 where
  pub in_year : m < 12
  pub counted : days_to_month year m + day ≡ total
  pub within : day < days_in_month year (suc m)

december : (year : ℕ) → days_to_month year 12 ≡ year_days year
december year = ground (arith, days_to_month-march year 10 (omega arith))

pub month_from-IsMonthDay :
    (fuel year m month day total : ℕ)
    → month ≡ suc m
    → fuel + m ≡ 11
    → days_to_month year m + day ≡ total
    → total < year_days year
    → (j : ℕ) × ((month_from fuel year month day).0 ≡ suc j)
      × IsMonthDay year total j (month_from fuel year month day).1
unfolding month_from days_to_month
month_from-IsMonthDay zero year m month day total s e c h =
    let last : suc m ≡ 12 = omega arith in
    let same : days_to_month year (suc m) ≡ days_to_month year 12 = ap (days_to_month year) last in
    (
      m,
      s,
      record { in_year = omega arith; counted = c; within = omega (arith, december year, same) },
    )
month_from-IsMonthDay (suc fuel) year m month day total s e c h =
    let same : days_in_month year month ≡ days_in_month year (suc m) = ap (days_in_month year) s in
    elim (Bool-cases (ltb day (days_in_month year month))) [
      | inl here ↦
          rw (month_from, here)
            (
              m,
              s,
              record {
                in_year = omega arith;
                counted = c;
                within = omega (arith, ltb-lt _ _ here, same);
              },
            )
      | inr later ↦
          rw (month_from, later)
            (month_from-IsMonthDay fuel year (suc m) (month + 1) (day - days_in_month year month)
              total (omega arith) (omega arith) (omega (arith, ltb-ge _ _ later, same)) h)
    ]
