-- ===== src/Api/Statistics/Query.antt =====
-- The range that `parseStatisticsQuery` of src/ShortLinkHttpApi.cpp lets through, against the check
-- that the repository of statistics makes in src/AccessStatistics.cpp.
use hao_short_link.Prelude.{
  Bool, Bool-cases, Bytes, Option, Option-cases, [], ap, arith, bytes_eq, false, if◌then◌else◌, inl,
  inr, is_empty, ltb, nat_eq, none, not, refl, some, some_same, suc, sym, true, ℕ, ◌*◌, ◌+◌, ◌-◌,
  ◌<◌, ◌>>=◌, ◌||◌, ◌∙◌, ◌∷◌, ◌≡◌, ◌≤◌,
}
use hao_short_link.Prelude.Int.{ -ℤ_parts, int_eq, leb_ℤ, ltb_ℤ, neg_part, pos, ℤ, ◌-ℤ◌}
use hao_short_link.Prelude.Map.{pair_eq}
use hao_short_link.Access.Statistics.{
  AccessStatisticsInterval, AccessStatisticsQuery, access_statistics_bucket_seconds,
  is_valid_access_statistics_query, max_range,
}
use hao_short_link.Api.Links.Asked.{accepted-injective}
use hao_short_link.Api.Reading.{Reading, accepted, rejected}
use hao_short_link.Api.Statistics.{
  check_range, default_end, is_multiple, parse_statistics_query, query_in, range_of, read_end,
}
use hao_short_link.Http.Request.{HttpRequest}
use hao_short_link.ShortLink.Timestamp.{
  days_in_month, parse_digits, parse_from, parse_utc_timestamp, seconds_of,
}
use hao_short_link.ShortLink.Timestamp.RoundTrip.{seconds_of-days}
use mathlib.Core.Option.{none-ne-some}
use mathlib.Core.Path.{subst}

parse_step :
    (so_far n : ℕ) (s : Bytes) (v : ℕ)
    → parse_from so_far (suc n) s ≡ some v
    → (q : ℕ) × (q ≤ so_far * 10 + 9) × (rest : Bytes) × (parse_from q n rest ≡ some v)
unfolding parse_from
parse_step so_far n [] v e = absurd (none-ne-some v e)
parse_step so_far n (c ∷ s) v e = elim (Bool-cases (ltb c b'0' || ltb b'9' c)) [
  | inl wrong ↦ ground arith
  | inr digit ↦ (so_far * 10 + (c - b'0'), ground arith, s, ground arith)
]

parse_end : (so_far : ℕ) (s : Bytes) (v : ℕ) → parse_from so_far 0 s ≡ some v → so_far ≡ v
unfolding parse_from
parse_end so_far s v e = some_same _ _ e

-- Four digits are below 10000.
parse_digits-bound : (value : Bytes) (v : ℕ) → parse_digits value 0 4 ≡ some v → v < 10000
unfolding parse_digits
parse_digits-bound value v e =
    let (a, ha, s₁, e₁) = parse_step 0 3 _ v e in
    let (b, hb, s₂, e₂) = parse_step a 2 s₁ v e₁ in
    let (c, hc, s₃, e₃) = parse_step b 1 s₂ v e₂ in
    let (d, hd, s₄, e₄) = parse_step c 0 s₃ v e₃ in omega (arith, parse_end d s₄ v e₄)

-- A time that is read stands not before 1970.
seconds_at-pos :
    (year month day k m d hour minute second : ℕ) (time : ℤ)
    → year ≡ 1970 + k
    → month ≡ suc m
    → day ≡ suc d
    → k < 8030
    → m < 12
    → d < days_in_month year month
    → hour < 24
    → minute < 60
    → second < 60
    → seconds_of year month day hour minute second ≡ some time
    → neg_part time ≡ 0
seconds_at-pos year month day k m d hour minute second time ey em ed hk hm hd hh hi hs e =
    ap neg_part (
      some_same _ _ (
        sym e
        ∙ ap (λ y. seconds_of y month day hour minute second) ey
        ∙ ap (λ n. seconds_of (1970 + k) n day hour minute second) em
        ∙ ap (λ n. seconds_of (1970 + k) (suc m) n hour minute second) ed
        ∙ seconds_of-days k m d hour minute second hk hm
            (omega
              (arith, hd, ap (λ n. days_in_month n month) ey, ap (days_in_month (1970 + k)) em))
            hh hi hs))

seconds_of-pos :
    (year month day hour minute second : ℕ) (time : ℤ)
    → year < 10000
    → seconds_of year month day hour minute second ≡ some time
    → neg_part time ≡ 0
unfolding seconds_of
seconds_of-pos year month day hour minute second time h e =
    elim (Bool-cases (
      ltb year 1970
      || ltb month 1
      || ltb 12 month
      || ltb day 1
      || ltb (days_in_month year month) day
      || ltb 23 hour
      || ltb 59 minute
      || ltb 59 second)) [
        | inl wrong ↦ ground arith
        | inr right ↦
            seconds_at-pos year month day (year - 1970) (month - 1) (day - 1) hour minute second
              time (ground arith) (ground arith) (ground arith) (ground arith) (ground arith)
              (ground arith) (ground arith) (ground arith) (ground arith) e
      ]

bind-some {ℓ κ} :
    {A : Type ℓ} {B : Type κ} (o : Option A) (f : A → Option B) (b : B)
    → (o >>= f) ≡ some b
    → (a : A) × (o ≡ some a) × (f a ≡ some b)
bind-some none f b e = absurd (none-ne-some b e)
bind-some (some a) f b e = (a, refl, e)

unless-some {ℓ} :
    {A : Type ℓ} (test : Bool) (o : Option A) (a : A)
    → (if test then none else o) ≡ some a
    → o ≡ some a
unless-some true o a e = absurd (none-ne-some a e)
unless-some false o a e = e

parse_utc_timestamp-pos :
    (value : Bytes) (time : ℤ) → parse_utc_timestamp value ≡ some time → neg_part time ≡ 0
unfolding parse_utc_timestamp
parse_utc_timestamp-pos value time e =
    let read = unless-some _ _ time e in
    let (year, hy, e₁) = bind-some (parse_digits value 0 4) _ time read in
    let (month, _, e₂) = bind-some (parse_digits value 5 2) _ time e₁ in
    let (day, _, e₃) = bind-some (parse_digits value 8 2) _ time e₂ in
    let (hour, _, e₄) = bind-some (parse_digits value 11 2) _ time e₃ in
    let (minute, _, e₅) = bind-some (parse_digits value 14 2) _ time e₄ in
    let (second, _, e₆) = bind-some (parse_digits value 17 2) _ time e₅ in
    seconds_of-pos year month day hour minute second time (parse_digits-bound value year hy) e₆

read_end-pos :
    (error_code message : Bytes) (default : ℤ) (value : Bytes) (time : ℤ)
    → neg_part default ≡ 0
    → read_end error_code message default value ≡ accepted time
    → neg_part time ≡ 0
unfolding read_end
read_end-pos error_code message default value time h e = elim (Bool-cases (is_empty value)) [
  | inl missing ↦ ground arith
  | inr given ↦ elim (Option-cases (parse_utc_timestamp value)) [
    | inl bad ↦ ground arith
    | inr (found, good) ↦ parse_utc_timestamp-pos value time (good ∙ ap some (ground arith))
  ]
]

check_range-valid :
    (query checked : AccessStatisticsQuery)
    → neg_part query.from_epoch_seconds ≡ 0
    → neg_part query.to_epoch_seconds ≡ 0
    → check_range query ≡ accepted checked
    → is_valid_access_statistics_query checked ≡ true
unfolding check_range is_valid_access_statistics_query
check_range-valid query checked from to e =
    elim (Bool-cases (
      not (is_multiple query.from_epoch_seconds (access_statistics_bucket_seconds query.interval))
      || not (is_multiple query.to_epoch_seconds (access_statistics_bucket_seconds query.interval))
      || leb_ℤ query.to_epoch_seconds query.from_epoch_seconds)) [
        | inl bad ↦ ground arith
        | inr good ↦
            elim (Bool-cases (
              ltb_ℤ (pos (max_range query.interval))
                (query.to_epoch_seconds -ℤ query.from_epoch_seconds))) [
                  | inl long ↦ ground arith
                  | inr short ↦
                      let same : query ≡ checked = accepted-injective _ _ (ground arith) in
                      subst (λ q. is_valid_access_statistics_query q ≡ true) same
                        (ground (arith, -ℤ_parts query.to_epoch_seconds query.from_epoch_seconds))
                ]
      ]

default_end-after :
    (interval : AccessStatisticsInterval) (now : ℕ)
    → now ≤ default_end (access_statistics_bucket_seconds interval) now
unfolding default_end access_statistics_bucket_seconds
default_end-after AccessStatisticsInterval.hour now = omega arith
default_end-after AccessStatisticsInterval.day now = omega arith

range_of-valid :
    (interval : AccessStatisticsInterval) (from to : Reading ℤ) (query : AccessStatisticsQuery)
    → ((time : ℤ) → from ≡ accepted time → neg_part time ≡ 0)
    → ((time : ℤ) → to ≡ accepted time → neg_part time ≡ 0)
    → range_of interval from to ≡ accepted query
    → is_valid_access_statistics_query query ≡ true
unfolding range_of
range_of-valid interval (rejected code m) to query h k e = ground arith
range_of-valid interval (accepted from) (rejected code m) query h k e = ground arith
range_of-valid interval (accepted from) (accepted to) query h k e =
    check_range-valid _ query (h from refl) (k to refl) e

query_in-valid :
    (request : HttpRequest) (now : ℕ) (interval : Reading AccessStatisticsInterval)
    (query : AccessStatisticsQuery)
    → 604800 ≤ now
    → query_in request now interval ≡ accepted query
    → is_valid_access_statistics_query query ≡ true
unfolding query_in
query_in-valid request now (rejected code m) query late e = ground arith
query_in-valid request now (accepted interval) query late e =
    let end = default_end (access_statistics_bucket_seconds interval) now in
    range_of-valid interval _ _ query
      (λ time q.
        read_end-pos _ _ (pos end -ℤ pos (7 * 86400)) _ time
          (ground (arith, default_end-after interval now, -ℤ_parts (pos end) (pos (7 * 86400)))) q)
      (λ time q. read_end-pos _ _ (pos end) _ time refl q) e

-- At a clock at least seven days behind 1970, every range that the handler takes from a request is one
-- that the repository of statistics takes, too: with ends that are not negative and fall on buckets,
-- in order, and not further apart than the interval allows.
pub parse_statistics_query-valid :
    (request : HttpRequest) (now : ℕ) (query : AccessStatisticsQuery)
    → 604800 ≤ now
    → parse_statistics_query request now ≡ accepted query
    → is_valid_access_statistics_query query ≡ true
unfolding parse_statistics_query
parse_statistics_query-valid request now query late e = query_in-valid request now _ query late e
