-- ===== src/Access/Statistics/Tests.antt =====
-- Buckets at concrete times.
use hao_short_link.Prelude.{bytes_eq, nat_eq, refl, ℕ, ◌*◌, ◌+◌, ◌≡◌, ◌≤◌}
use hao_short_link.Prelude.Int.{int_eq, pos}
use hao_short_link.Prelude.Map.{pair_eq}
use hao_short_link.Access.Statistics.{
  AccessStatisticsInterval, AccessStatisticsQuery, access_statistics_bucket_seconds,
  is_valid_access_statistics_query,
}
use hao_short_link.Access.Statistics.Buckets.{is_valid_access_statistics_query-buckets, max_buckets}

abbrev week : AccessStatisticsQuery
week = record {
  from_epoch_seconds = pos 604800;
  to_epoch_seconds = pos 1209600;
  interval = AccessStatisticsInterval.day;
}

is_valid_access_statistics_query-buckets_example :
    (first : ℕ) × (count : ℕ) × (pos 604800
      ≡ pos (first * access_statistics_bucket_seconds AccessStatisticsInterval.day))
    × (pos 1209600
        ≡ pos ((first + count) * access_statistics_bucket_seconds AccessStatisticsInterval.day))
    × (1 ≤ count)
    × (count ≤ max_buckets AccessStatisticsInterval.day)
unfolding is_valid_access_statistics_query access_statistics_bucket_seconds
is_valid_access_statistics_query-buckets_example =
    is_valid_access_statistics_query-buckets week refl
