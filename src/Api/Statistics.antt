-- ===== src/Api/Statistics.antt =====
-- apps/shortlink_server: the statistics handler of src/ShortLinkHttpApi.cpp, over any repositories of
-- links and of statistics. `now` is the clock, which stands after 1970.
-- The times of accesses are positive: the writer takes no others.
pub mod Query
use hao_short_link.Prelude.{
  Bool, Bytes, List, Option, [], bytes_eq, codes, get_elem?, if◌then◌else◌, is_empty, map, nat_eq,
  none, not, some, ℕ, ◌%◌, ◌&&◌, ◌*◌, ◌++◌, ◌+◌, ◌-◌, ◌/◌, ◌==◌, ◌||◌, ◌∷◌,
}
use hao_short_link.Prelude.Int.{int_eq, leb_ℤ, ltb_ℤ, neg_part, pos, pos_part, ℤ, ◌-ℤ◌}
use hao_short_link.Prelude.Map.{pair_eq}
use hao_short_link.Access.Statistics.{
  AccessStatisticsInterval, AccessStatisticsQuery, access_statistics_attempt_count,
  access_statistics_bucket_seconds, access_statistics_interval_to_string, max_range,
  parse_access_statistics_interval,
}
use hao_short_link.Api.Json.{HandlerReply, JsonValues, format_time, left_with, null_or, set_json}
use hao_short_link.Api.Links.{bad_request, code_of, link_not_found}
use hao_short_link.Api.Reading.{Reading, accepted, rejected}
use hao_short_link.Http.Request.{HttpRequest, get_query_parameters}
use hao_short_link.Http.Response.{HttpResponse, HttpStatusCode}
use hao_short_link.ShortLink.Record.{Outcome, backend_failure, returned, short_code_conflict}
use hao_short_link.ShortLink.Repository.{ShortLinkRepository}
use hao_short_link.ShortLink.Service.{get_for_owner}
use hao_short_link.ShortLink.Timestamp.{format_utc_timestamp, parse_utc_timestamp}

pub record AccessStatisticsSummary : Type 0 where
  pub result_counts : List ℕ
  pub last_access_at_ms : Option ℕ
  pub last_attempt_at_ms : Option ℕ

pub record AccessStatisticsTrendPoint : Type 0 where
  pub bucket_start_epoch_seconds : ℤ
  pub result_counts : List ℕ

pub record AccessStatisticsSnapshot : Type 0 where
  pub code : Bytes
  pub summary : AccessStatisticsSummary
  pub trend : List AccessStatisticsTrendPoint

unfoldable pub read_interval : Bytes → Reading AccessStatisticsInterval
read_interval value =
    if is_empty value
    then accepted AccessStatisticsInterval.day
    else elim (parse_access_statistics_interval value) [
      | none ↦ rejected (codes "invalid_interval") (codes "interval must be hour or day")
      | some interval ↦ accepted interval
    ]

-- An end of the range: the text of the parameter, or else the default.
unfoldable pub read_end : Bytes → Bytes → ℤ → Bytes → Reading ℤ
read_end error_code message default value =
    if is_empty value then accepted default else elim (parse_utc_timestamp value) [
      | none ↦ rejected error_code message
      | some time ↦ accepted time
    ]

-- `%` of C++ is zero at the multiples, on both sides of zero.
abbrev pub is_multiple : ℤ → ℕ → Bool
is_multiple time bucket_seconds =
    ((pos_part time) % bucket_seconds == 0) && ((neg_part time) % bucket_seconds == 0)

unfoldable pub check_range : AccessStatisticsQuery → Reading AccessStatisticsQuery
check_range query =
    let bucket_seconds = access_statistics_bucket_seconds query.interval in
    if not (is_multiple query.from_epoch_seconds bucket_seconds)
      || not (is_multiple query.to_epoch_seconds bucket_seconds)
      || leb_ℤ query.to_epoch_seconds query.from_epoch_seconds
    then rejected (codes "invalid_statistics_range")
        (codes "from/to must be aligned and increasing")
    else if ltb_ℤ (pos (max_range query.interval))
        (query.to_epoch_seconds -ℤ query.from_epoch_seconds)
    then rejected (codes "statistics_range_too_large")
        (codes "Requested statistics range is too large")
    else accepted query

-- The end of the bucket of `now`.
unfoldable pub default_end : ℕ → ℕ → ℕ
default_end bucket_seconds now = (now + bucket_seconds - 1) / bucket_seconds * bucket_seconds

-- The first end that is refused refuses the request.
unfoldable pub range_of :
    AccessStatisticsInterval → Reading ℤ → Reading ℤ → Reading AccessStatisticsQuery
range_of interval (rejected e m) to = rejected e m
range_of interval (accepted from) (rejected e m) = rejected e m
range_of interval (accepted from) (accepted to) =
    check_range (record { from_epoch_seconds = from; to_epoch_seconds = to; interval = interval })

unfoldable pub query_in :
    HttpRequest → ℕ → Reading AccessStatisticsInterval → Reading AccessStatisticsQuery
query_in request now (rejected e m) = rejected e m
query_in request now (accepted interval) =
    let to = pos (default_end (access_statistics_bucket_seconds interval) now) in
    range_of interval
      (read_end (codes "invalid_from") (codes "from must be a UTC timestamp")
        (to -ℤ pos (7 * 86400)) (get_query_parameters (codes "from") request))
      (read_end (codes "invalid_to") (codes "to must be a UTC timestamp") to
        (get_query_parameters (codes "to") request))

unfoldable pub parse_statistics_query : HttpRequest → ℕ → Reading AccessStatisticsQuery
parse_statistics_query request now =
    query_in request now (read_interval (get_query_parameters (codes "interval") request))

abbrev drop_last : Bytes → Bytes
drop_last [] = []
drop_last (c ∷ []) = []
drop_last (c ∷ d ∷ s) = c ∷ drop_last (d ∷ s)

-- `setw(3)` with zeros, of a number below 1000.
abbrev three_digits : ℕ → Bytes
three_digits n = (b'0' + n / 100) ∷ (b'0' + n / 10 % 10) ∷ (b'0' + n % 10) ∷ []

-- A time of an access, which stands after 1970.
unfoldable pub format_utc_timestamp_ms : ℕ → Bytes
format_utc_timestamp_ms epoch_milliseconds =
    drop_last (format_utc_timestamp (epoch_milliseconds / 1000))
    ++ codes "."
    ++ three_digits (epoch_milliseconds % 1000)
    ++ codes "Z"

-- `counts[i]`, within the array.
abbrev count_at : List ℕ → ℕ → ℕ
count_at counts i = elim (get_elem? counts i) [ none ↦ 0 | some n ↦ n ]

module _ {J : Type 0} (json : JsonValues J) (before_1970 : ℕ → Bytes) where
  unfoldable pub counts_json : List ℕ → J
  counts_json counts = json.object (
      (codes "success", json.number (count_at counts 0))
      ∷ (codes "disabled", json.number (count_at counts 1))
      ∷ (codes "expired", json.number (count_at counts 2))
      ∷ (codes "error", json.number (count_at counts 3))
      ∷ [])

  abbrev time_or_null : Option ℕ → J
  time_or_null = null_or json (λ ms. json.text (format_utc_timestamp_ms ms))

  unfoldable pub summary_json : AccessStatisticsSummary → J
  summary_json summary = json.object (
      (codes "access_count", json.number (count_at summary.result_counts 0))
      ∷ (codes "attempt_count", json.number (access_statistics_attempt_count summary.result_counts))
      ∷ (codes "result_counts", counts_json summary.result_counts)
      ∷ (codes "last_access_at", time_or_null summary.last_access_at_ms)
      ∷ (codes "last_attempt_at", time_or_null summary.last_attempt_at_ms)
      ∷ [])

  unfoldable pub point_json : AccessStatisticsTrendPoint → J
  point_json point = json.object (
      (codes "bucket_start", json.text (format_time before_1970 point.bucket_start_epoch_seconds))
      ∷ (codes "access_count", json.number (count_at point.result_counts 0))
      ∷ (codes "attempt_count", json.number (access_statistics_attempt_count point.result_counts))
      ∷ (codes "result_counts", counts_json point.result_counts)
      ∷ [])

  unfoldable pub snapshot_json : AccessStatisticsQuery → AccessStatisticsSnapshot → J
  snapshot_json query snapshot = json.object (
      (codes "code", json.text snapshot.code)
      ∷ (codes "consistency", json.text (codes "eventual"))
      ∷ (codes "summary", summary_json snapshot.summary)
      ∷ (
        codes "trend",
        json.object (
            (codes "interval", json.text (access_statistics_interval_to_string query.interval))
            ∷ (codes "from", json.text (format_time before_1970 query.from_epoch_seconds))
            ∷ (codes "to", json.text (format_time before_1970 query.to_epoch_seconds))
            ∷ (codes "points", json.array (map point_json snapshot.trend))
            ∷ []),
      )
      ∷ [])

-- The repository of statistics, as its answers during the call.
module _ {T J : Type 0} (repository : ShortLinkRepository T)
    (statistics : Bytes → AccessStatisticsQuery → Outcome (Option AccessStatisticsSnapshot))
    (json : JsonValues J) (before_1970 : ℕ → Bytes) where
  unfoldable pub answer_statistics :
      Bytes → Reading AccessStatisticsQuery → HttpResponse → HandlerReply
  answer_statistics code (rejected e m) r = bad_request e m r
  answer_statistics code (accepted query) r = elim (statistics code query) [
    | returned none ↦ link_not_found r
    | returned (some snapshot) ↦
        set_json json HttpStatusCode.ok (codes "OK") (snapshot_json json before_1970 query snapshot)
          r
    | short_code_conflict ↦ left_with r
    | backend_failure ↦ left_with r
  ]

  unfoldable pub handle_statistics : HttpRequest → ℕ → ℕ → HttpResponse → T → T × HandlerReply
  handle_statistics request owner_id now r t =
      let code = code_of request in
      let (t₁, out) = get_for_owner repository code owner_id t in
      (
        t₁,
        elim out as (λ _. HandlerReply) [
          | returned none ↦ link_not_found r
          | returned (some link) ↦ answer_statistics code (parse_statistics_query request now) r
          | short_code_conflict ↦ left_with r
          | backend_failure ↦ left_with r
        ],
      )
