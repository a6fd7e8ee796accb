-- ===== src/Access/Statistics/Buckets.antt =====
-- The buckets that statistics are kept in and asked for.
use hao_short_link.Prelude.{
  ap, arith, bytes_eq, nat_eq, none, refl, some, suc, sym, true, zero, ℕ, ◌%◌, ◌*◌, ◌+◌, ◌-◌, ◌/◌,
  ◌<◌, ◌↔◌, ◌∙◌, ◌≡◌, ◌≤◌,
}
use hao_short_link.Prelude.Int.{int_eq, negsuc, pos, pos_part, ℤ, ◌+ℤ◌, ◌≤ℤ◌}
use hao_short_link.Access.Statistics.{
  AccessStatisticsInterval, AccessStatisticsQuery, access_statistics_bucket_seconds,
  is_valid_access_statistics_query, max_range, utc_hour_bucket_start,
}
use hao_short_link.ShortLink.Metrics.Counts.{count}
use hao_short_link.ShortLink.Record.{status_eq}
use mathlib.Core.Option.{none-ne-some}

abbrev pub max_buckets : AccessStatisticsInterval → ℕ
max_buckets AccessStatisticsInterval.hour = 31 * 24
max_buckets AccessStatisticsInterval.day = 366

some_is : (a b : ℕ) → some a ≡ some b → a ≡ b
some_is a b e = cc

hour_start :
    (ms bucket : ℕ)
    → ms / 1000 - ms / 1000 % 3600 ≡ bucket
    → (bucket % 3600 ≡ 0) × (bucket * 1000 ≤ ms) × (ms + 1 ≤ (bucket + 3600) * 1000)
hour_start ms bucket e = omega arith

after : (ms : ℕ) → pos ms +ℤ pos 1 ≡ pos (ms + 1)
unfolding ◌+ℤ◌
after ms = ground arith

-- An event belongs to the hour that its bucket starts: the start is a whole hour, and the event
-- happened in the 3600 seconds from it on. Only a time that is not positive has no bucket.
pub utc_hour_bucket_start-hour :
    (occurred_at_ms : ℤ)
    → ((utc_hour_bucket_start occurred_at_ms ≡ none) ↔ (occurred_at_ms ≤ℤ pos 0))
      × ((bucket : ℕ)
          → utc_hour_bucket_start occurred_at_ms ≡ some bucket
          → (bucket % 3600 ≡ 0)
            × (pos (bucket * 1000) ≤ℤ occurred_at_ms)
            × (occurred_at_ms +ℤ pos 1 ≤ℤ pos ((bucket + 3600) * 1000)))
unfolding utc_hour_bucket_start
utc_hour_bucket_start-hour (negsuc n) =
    ((λ _. omega arith, λ _. refl), λ bucket e. absurd (none-ne-some bucket e))
utc_hour_bucket_start-hour (pos zero) =
    ((λ _. omega arith, λ _. refl), λ bucket e. absurd (none-ne-some bucket e))
utc_hour_bucket_start-hour (pos (suc n)) = (
  (λ e. absurd (none-ne-some _ (sym e)), λ h. absurd (omega (arith, h))),
  λ bucket e.
      let (whole, from, to) = hour_start (suc n) bucket (some_is _ _ e) in
      (whole, omega (arith, from), rw (after (suc n)) (omega (arith, to))),
)

parts :
    (query : AccessStatisticsQuery)
    → is_valid_access_statistics_query query ≡ true
    → let from = query.from_epoch_seconds in
      let to = query.to_epoch_seconds in
      let bucket = access_statistics_bucket_seconds query.interval in
      (from ≡ pos (pos_part from))
      × (to ≡ pos (pos_part to))
      × (pos_part from < pos_part to)
      × (pos_part from % bucket ≡ 0)
      × (pos_part to % bucket ≡ 0)
      × (pos_part to - pos_part from ≤ max_range query.interval)
unfolding is_valid_access_statistics_query
parts query h = ground arith

cut :
    (interval : AccessStatisticsInterval) (from to : ℕ)
    → from < to
    → from % access_statistics_bucket_seconds interval ≡ 0
    → to % access_statistics_bucket_seconds interval ≡ 0
    → to - from ≤ max_range interval
    → (first : ℕ) × (count : ℕ) × (from ≡ first * access_statistics_bucket_seconds interval)
      × (to ≡ (first + count) * access_statistics_bucket_seconds interval)
      × (1 ≤ count)
      × (count ≤ max_buckets interval)
unfolding access_statistics_bucket_seconds
cut AccessStatisticsInterval.hour from to lt e e' h =
    (from / 3600, to / 3600 - from / 3600, omega arith, omega arith, omega arith, omega arith)
cut AccessStatisticsInterval.day from to lt e e' h =
    (from / 86400, to / 86400 - from / 86400, omega arith, omega arith, omega arith, omega arith)

-- The range of a query that is accepted is cut into whole buckets: between one and 744 hours, or
-- between one and 366 days.
pub is_valid_access_statistics_query-buckets :
    (query : AccessStatisticsQuery)
    → is_valid_access_statistics_query query ≡ true
    → (first : ℕ) × (count : ℕ) × (query.from_epoch_seconds
        ≡ pos (first * access_statistics_bucket_seconds query.interval))
      × (query.to_epoch_seconds
          ≡ pos ((first + count) * access_statistics_bucket_seconds query.interval))
      × (1 ≤ count)
      × (count ≤ max_buckets query.interval)
unfolding is_valid_access_statistics_query
is_valid_access_statistics_query-buckets query h =
    let from = query.from_epoch_seconds in
    let to = query.to_epoch_seconds in
    let (started, ended, positive, whole, whole', short) = parts query h in
    let (first, count, e, e', some_bucket, few) =
      cut query.interval (pos_part from) (pos_part to) positive whole whole' short in
    (first, count, started ∙ ap pos e, ended ∙ ap pos e', some_bucket, few)
