-- ===== src/Access/Statistics.antt =====
-- apps/shortlink_server: include/shortlink/AccessStatistics.h and src/AccessStatistics.cpp.
pub mod Buckets
mod Tests
use hao_short_link.Prelude.{
  Bool, Bytes, List, Option, [], bytes_eq, codes, false, if◌then◌else◌, leb, nat_eq, none, not,
  some, suc, true, zero, ℕ, ◌%◌, ◌*◌, ◌+◌, ◌-◌, ◌/◌, ◌==◌, ◌^◌, ◌||◌, ◌∷◌,
}
use hao_short_link.Prelude.Int.{int_eq, leb_ℤ, ltb_ℤ, negsuc, pos, pos_part, ℤ}
use hao_short_link.Access.Event.{AccessEventResult}
use hao_short_link.ShortLink.Record.{status_eq}

unfoldable pub is_aggregated_access_result : AccessEventResult → Bool
is_aggregated_access_result AccessEventResult.success = true
is_aggregated_access_result AccessEventResult.disabled = true
is_aggregated_access_result AccessEventResult.expired = true
is_aggregated_access_result AccessEventResult.error = true
is_aggregated_access_result AccessEventResult.not_found = false

unfoldable pub access_statistics_result_index : AccessEventResult → Option ℕ
access_statistics_result_index AccessEventResult.success = some 0
access_statistics_result_index AccessEventResult.disabled = some 1
access_statistics_result_index AccessEventResult.expired = some 2
access_statistics_result_index AccessEventResult.error = some 3
access_statistics_result_index AccessEventResult.not_found = none

-- The exception on a time that is not positive is `none`.
unfoldable pub utc_hour_bucket_start : ℤ → Option ℕ
utc_hour_bucket_start (negsuc n) = none
utc_hour_bucket_start (pos zero) = none
utc_hour_bucket_start (pos (suc n)) = let seconds = suc n / 1000 in some (seconds - seconds % 3600)

pub data AccessStatisticsInterval : Type 0 where
  hour day : AccessStatisticsInterval

unfoldable pub access_statistics_interval_to_string : AccessStatisticsInterval → Bytes
access_statistics_interval_to_string AccessStatisticsInterval.hour = codes "hour"
access_statistics_interval_to_string AccessStatisticsInterval.day = codes "day"

unfoldable pub parse_access_statistics_interval : Bytes → Option AccessStatisticsInterval
parse_access_statistics_interval value =
    if value == codes "hour"
    then some AccessStatisticsInterval.hour
    else if value == codes "day"
    then some AccessStatisticsInterval.day
    else none

unfoldable pub access_statistics_bucket_seconds : AccessStatisticsInterval → ℕ
access_statistics_bucket_seconds AccessStatisticsInterval.hour = 3600
access_statistics_bucket_seconds AccessStatisticsInterval.day = 3600 * 24

pub record AccessStatisticsQuery : Type 0 where
  pub from_epoch_seconds : ℤ
  pub to_epoch_seconds : ℤ
  pub interval : AccessStatisticsInterval

abbrev pub max_range : AccessStatisticsInterval → ℕ
max_range AccessStatisticsInterval.hour = 31 * 86400
max_range AccessStatisticsInterval.day = 366 * 86400

-- Behind the first test both ends are not negative, and the remainders and the difference are those
-- of ℕ.
unfoldable pub is_valid_access_statistics_query : AccessStatisticsQuery → Bool
is_valid_access_statistics_query query =
    if ltb_ℤ query.from_epoch_seconds (pos 0)
      || leb_ℤ query.to_epoch_seconds query.from_epoch_seconds
    then false
    else let from = pos_part query.from_epoch_seconds in
      let to = pos_part query.to_epoch_seconds in
      let bucket_seconds = access_statistics_bucket_seconds query.interval in
      if not (from % bucket_seconds == 0) || not (to % bucket_seconds == 0)
      then false
      else leb (to - from) (max_range query.interval)

-- `std::accumulate` over uint64.
unfoldable pub add_counts : ℕ → List ℕ → ℕ
add_counts sum [] = sum
add_counts sum (c ∷ counts) = add_counts ((sum + c) % 2 ^ 64) counts

unfoldable pub access_statistics_attempt_count : List ℕ → ℕ
access_statistics_attempt_count counts = add_counts 0 counts
