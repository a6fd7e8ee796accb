-- ===== src/Access/Writer.antt =====
-- apps/shortlink_event_consumer: `MySqlAccessStatisticsWriter::process` of
-- src/MySqlAccessStatisticsWriter.cpp, over the tables of apps/shortlink_server/sql. The text of a
-- statement is a function on the tables; which statements throw is an argument, since the server is
-- not part of the repository. Counts beyond BIGINT UNSIGNED, which the server refuses, are not
-- reached.
pub mod Tally
pub mod Once
pub mod Deliveries
pub mod Redelivery
mod Tests
use hao_short_link.Prelude.{
  Bool, Bytes, List, Option, bytes_eq, false, if◌then◌else◌, is_empty, is_some, length, ltb, nat_eq,
  none, not, some, suc, true, ℕ, ◌==◌, ◌||◌,
}
use hao_short_link.Prelude.Int.{int_eq, ltb_ℤ, pos, ℤ}
use hao_short_link.Prelude.Map.{insert, lookup, pair_eq}
use hao_short_link.Access.Event.{
  AccessEvent, AccessEventResult, access_event_result_to_string, is_valid_access_event,
}
use hao_short_link.Access.Statistics.{is_aggregated_access_result, utc_hour_bucket_start}
use hao_short_link.ShortLink.Cache.Store.{min_ℤ}
use hao_short_link.ShortLink.Metrics.Counts.{count}
use hao_short_link.ShortLink.Record.{status_eq}

pub record AccessEventSourcePosition : Type 0 where
  pub topic : Bytes
  pub partition : ℤ
  pub offset : ℤ

pub data AccessStatisticsWriteResult : Type 0 where
  aggregated duplicate ignored_not_found : AccessStatisticsWriteResult

-- `OrphanShortLinkEvent`, or another exception.
pub data WriteException : Type 0 where
  orphan write_failed : WriteException

-- How a call ends.
pub data WriteOutcome : Type 0 where
  wrote : AccessStatisticsWriteResult → WriteOutcome
  raised : WriteException → WriteOutcome

pub data Disposition : Type 0 where
  was_received was_aggregated was_ignored : Disposition

pub record ProcessedEvent : Type 0 where
  pub source : AccessEventSourcePosition
  pub occurred_at_ms : ℤ
  pub disposition : Disposition

pub record AccessTotal : Type 0 where
  pub access_count : ℕ
  pub first_occurred_at_ms : ℤ
  pub last_occurred_at_ms : ℤ

-- The committed tables, each by its primary key; `short_links` gives the id of a code.
pub record Tables : Type 0 where
  pub processed : List (Bytes × ProcessedEvent)
  pub short_links : List (Bytes × ℕ)
  pub totals : List ((ℕ × Bytes) × AccessTotal)
  pub hourly : List ((ℕ × (ℕ × Bytes)) × ℕ)

-- The statements that throw. A COMMIT that throws may have been carried out.
pub record Faults : Type 0 where
  pub at_start : Bool
  pub at_insert : Bool
  pub at_select : Bool
  pub at_totals : Bool
  pub at_hourly : Bool
  pub at_disposition : Bool
  pub at_commit : Bool
  pub commit_applied : Bool

unfoldable pub is_valid_source : AccessEventSourcePosition → Bool
is_valid_source source = not (
    is_empty source.topic
    || ltb 249 (length source.topic)
    || ltb_ℤ source.partition (pos 0)
    || ltb_ℤ source.offset (pos 0))

abbrev pub received : AccessEvent → AccessEventSourcePosition → ProcessedEvent
received event source = record {
  source = source;
  occurred_at_ms = event.occurred_at_ms;
  disposition = Disposition.was_received;
}

-- INSERT IGNORE, with the number of rows.
unfoldable pub insert_processed : AccessEvent → AccessEventSourcePosition → Tables → Tables × ℕ
insert_processed event source t =
    if is_some (lookup event.event_id t.processed)
    then (t, 0)
    else (record t { processed = insert event.event_id (received event source) t.processed }, 1)

abbrev pub disposed :
    Disposition
    → Bytes
    → Option ProcessedEvent
    → List (Bytes × ProcessedEvent)
    → List (Bytes × ProcessedEvent)
disposed d event_id none rows = rows
disposed d event_id (some row) rows = insert event_id (record row { disposition = d }) rows

unfoldable pub set_disposition : Disposition → Bytes → Tables → Tables
set_disposition d event_id t = record t {
  processed = disposed d event_id (lookup event_id t.processed) t.processed;
}

abbrev max_ℤ : ℤ → ℤ → ℤ
max_ℤ a b = if ltb_ℤ a b then b else a

-- ON DUPLICATE KEY UPDATE.
unfoldable pub next_total : ℤ → Option AccessTotal → AccessTotal
next_total occurred_at_ms none = record {
  access_count = 1;
  first_occurred_at_ms = occurred_at_ms;
  last_occurred_at_ms = occurred_at_ms;
}
next_total occurred_at_ms (some row) = record {
  access_count = suc row.access_count;
  first_occurred_at_ms = min_ℤ row.first_occurred_at_ms occurred_at_ms;
  last_occurred_at_ms = max_ℤ row.last_occurred_at_ms occurred_at_ms;
}

unfoldable pub add_total : ℕ → Bytes → ℤ → Tables → Tables
add_total link_id result occurred_at_ms t =
    let row = next_total occurred_at_ms (lookup (link_id, result) t.totals) in
    record t { totals = insert (link_id, result) row t.totals }

abbrev pub next_count : Option ℕ → ℕ
next_count none = 1
next_count (some count) = suc count

unfoldable pub add_hourly : ℕ → ℕ → Bytes → Tables → Tables
add_hourly link_id bucket_start result t =
    let key : ℕ × (ℕ × Bytes) = (link_id, (bucket_start, result)) in
    record t { hourly = insert key (next_count (lookup key t.hourly)) t.hourly }

-- Where the transaction goes: to COMMIT with a result, or to the handler with an exception.
pub data Turn : Type 0 where
  commits : AccessStatisticsWriteResult → Turn
  throws : WriteException → Turn

unfoldable pub aggregate : AccessEvent → Faults → ℕ → ℕ → Tables → Tables × Turn
aggregate event faults link_id bucket_start t =
    let result = access_event_result_to_string event.result in
    if faults.at_totals || faults.at_hourly || faults.at_disposition
    then (t, throws write_failed)
    else (
      set_disposition Disposition.was_aggregated event.event_id (
          add_hourly link_id bucket_start result (add_total link_id result event.occurred_at_ms t)),
      commits AccessStatisticsWriteResult.aggregated,
    )

unfoldable pub find_and_aggregate : AccessEvent → Faults → Tables → Tables × Turn
find_and_aggregate event faults t = elim (lookup event.code t.short_links) [
  | none ↦ (t, throws orphan)
  | some link_id ↦ elim (utc_hour_bucket_start event.occurred_at_ms) [
    | none ↦ (t, throws write_failed)
    | some bucket_start ↦ aggregate event faults link_id bucket_start t
  ]
]

abbrev pub is_not_found : AccessEventResult → Bool
is_not_found AccessEventResult.not_found = true
is_not_found AccessEventResult.success = false
is_not_found AccessEventResult.disabled = false
is_not_found AccessEventResult.expired = false
is_not_found AccessEventResult.error = false

-- The body of the `try` block up to COMMIT.
unfoldable pub transaction :
    AccessEvent → AccessEventSourcePosition → Faults → Tables → Tables × Turn
transaction event source faults t =
    let (t₁, inserted) = insert_processed event source t in
    if faults.at_insert
    then (t, throws write_failed)
    else if inserted == 0
    then (t₁, commits AccessStatisticsWriteResult.duplicate)
    else if is_not_found event.result
    then (if faults.at_disposition then (t₁, throws write_failed) else (
      set_disposition Disposition.was_ignored event.event_id t₁,
      commits AccessStatisticsWriteResult.ignored_not_found,
    ))
    else if not (is_aggregated_access_result event.result)
    then (t₁, throws write_failed)
    else if faults.at_select
    then (t₁, throws write_failed)
    else find_and_aggregate event faults t₁

-- COMMIT keeps the changes; the handler rolls them back, as the server does when it loses the
-- connection.
unfoldable pub settle : Faults → Tables → Tables × Turn → Tables × WriteOutcome
settle faults before (after, throws e) = (before, raised e)
settle faults before (after, commits result) =
    if faults.at_commit
    then (if faults.commit_applied then after else before, raised write_failed)
    else (after, wrote result)

unfoldable pub process :
    AccessEvent → AccessEventSourcePosition → Faults → Tables → Tables × WriteOutcome
process event source faults t =
    if not (is_valid_access_event event) || not (is_valid_source source) || faults.at_start
    then (t, raised write_failed)
    else settle faults t (transaction event source faults t)
