-- ===== src/Access/Writer/Redelivery.antt =====
-- A second delivery of an event changes nothing.
use hao_short_link.Prelude.{
  Bool, Bool-cases, Bytes, List, Option-cases, ap, arith, bytes_eq, false, if◌then◌else◌, inl, inr,
  is_some, nat_eq, not, true, ℕ, ◌==◌, ◌||◌, ◌≡◌, ◌≢◌, ◌⊎◌,
}
use hao_short_link.Prelude.Int.{int_eq}
use hao_short_link.Prelude.Map.{lookup, pair_eq}
use hao_short_link.Access.Event.{AccessEvent, access_event_result_to_string, is_valid_access_event}
use hao_short_link.Access.Statistics.{is_aggregated_access_result, utc_hour_bucket_start}
use hao_short_link.Access.Writer.{
  AccessEventSourcePosition, AccessStatisticsWriteResult, Disposition, Faults, Tables, Turn,
  WriteException, add_hourly, add_total, aggregate, commits, find_and_aggregate, insert_processed,
  is_not_found, is_valid_source, orphan, process, raised, received, set_disposition, settle, throws,
  transaction, write_failed, wrote,
}
use hao_short_link.Access.Writer.Deliveries.{deliver_all, deliver_all-Has, set_disposition-Has}
use hao_short_link.Access.Writer.Tally.{found_inserted}

-- The event has a row once the transaction can be committed.
record Records (event_id : Bytes) (x : Tables × Turn) : Type 0 where
  recorded :
      (result : AccessStatisticsWriteResult)
      → x.1 ≡ commits result
      → is_some (lookup event_id x.0.processed) ≡ true

either :
    (event_id : Bytes) (b : Bool) (x y : Tables × Turn)
    → Records event_id x
    → Records event_id y
    → Records event_id (if b then x else y)
either event_id true x y hx hy = hx
either event_id false x y hx hy = hy

throws_not_commits :
    (e : WriteException) (result : AccessStatisticsWriteResult) → throws e ≢ commits result
throws_not_commits e result h = ground arith

throws-Records :
    (event_id : Bytes) (t : Tables) (e : WriteException) → Records event_id (t, throws e)
throws-Records event_id t e = record {
  recorded = λ result h. absurd (throws_not_commits e result h);
}

aggregate-Records :
    (event : AccessEvent) (faults : Faults) (link_id bucket : ℕ) (t : Tables)
    → is_some (lookup event.event_id t.processed) ≡ true
    → Records event.event_id (aggregate event faults link_id bucket t)
unfolding aggregate add_total add_hourly
aggregate-Records event faults link_id bucket t h =
    let id = event.event_id in
    let result = access_event_result_to_string event.result in
    let counted =
      add_hourly link_id bucket result (add_total link_id result event.occurred_at_ms t) in
    either id (faults.at_totals || faults.at_hourly || faults.at_disposition)
      (t, throws write_failed)
      (
        set_disposition Disposition.was_aggregated id counted,
        commits AccessStatisticsWriteResult.aggregated,
      )
      (throws-Records id t write_failed)
      (record {
        recorded = λ result e. set_disposition-Has id id Disposition.was_aggregated counted h;
      })

find_and_aggregate-Records :
    (event : AccessEvent) (faults : Faults) (t : Tables)
    → is_some (lookup event.event_id t.processed) ≡ true
    → Records event.event_id (find_and_aggregate event faults t)
unfolding find_and_aggregate
find_and_aggregate-Records event faults t h =
    let id = event.event_id in
    elim (Option-cases (lookup event.code t.short_links)) [
      | inl gone ↦ rw (find_and_aggregate, gone) (throws-Records id t orphan)
      | inr (link_id, found) ↦ elim (Option-cases (utc_hour_bucket_start event.occurred_at_ms)) [
        | inl early ↦ rw (find_and_aggregate, found, early) (throws-Records id t write_failed)
        | inr (bucket, at) ↦
            rw (find_and_aggregate, found, at) (aggregate-Records event faults link_id bucket t h)
      ]
    ]

insert_processed-found :
    (event : AccessEvent) (source : AccessEventSourcePosition) (t : Tables)
    → is_some (lookup event.event_id (insert_processed event source t).0.processed) ≡ true
unfolding insert_processed
insert_processed-found event source t =
    elim (Bool-cases (is_some (lookup event.event_id t.processed))) [
      | inl seen ↦ rw (insert_processed, seen) seen
      | inr fresh ↦
          rw (insert_processed, fresh)
            (ap is_some (found_inserted event.event_id (received event source) t.processed))
    ]

transaction-Records :
    (event : AccessEvent) (source : AccessEventSourcePosition) (faults : Faults) (t : Tables)
    → Records event.event_id (transaction event source faults t)
unfolding transaction
transaction-Records event source faults t =
    let id = event.event_id in
    let t₁ = (insert_processed event source t).0 in
    let found = insert_processed-found event source t in
    let ignored =
      either id faults.at_disposition (t₁, throws write_failed)
        (
          set_disposition Disposition.was_ignored id t₁,
          commits AccessStatisticsWriteResult.ignored_not_found,
        )
        (throws-Records id t₁ write_failed)
        (record {
          recorded = λ result e. set_disposition-Has id id Disposition.was_ignored t₁ found;
        }) in
    let counted =
      either id (not (is_aggregated_access_result event.result)) (t₁, throws write_failed)
        (if faults.at_select then (t₁, throws write_failed) else find_and_aggregate event faults t₁)
        (throws-Records id t₁ write_failed)
        (either id faults.at_select (t₁, throws write_failed) (find_and_aggregate event faults t₁)
          (throws-Records id t₁ write_failed) (find_and_aggregate-Records event faults t₁ found)) in
    either id faults.at_insert (t, throws write_failed) _ (throws-Records id t write_failed)
      (either id ((insert_processed event source t).1 == 0)
        (t₁, commits AccessStatisticsWriteResult.duplicate) _
        (record { recorded = λ result e. found })
        (either id (is_not_found event.result) _ _ ignored counted))

settle-wrote :
    (faults : Faults) (before : Tables) (x : Tables × Turn) (result : AccessStatisticsWriteResult)
    → (settle faults before x).1 ≡ wrote result
    → (x.1 ≡ commits result) × ((settle faults before x).0 ≡ x.0)
unfolding settle
settle-wrote faults before (after, throws e) result h = absurd (ground arith)
settle-wrote faults before (after, commits r) result h = ground arith

process-found :
    (event : AccessEvent) (source : AccessEventSourcePosition) (faults : Faults) (t : Tables)
    (result : AccessStatisticsWriteResult)
    → (process event source faults t).1 ≡ wrote result
    → is_some (lookup event.event_id (process event source faults t).0.processed) ≡ true
unfolding process
process-found event source faults t result e =
    elim (Bool-cases
      (not (is_valid_access_event event) || not (is_valid_source source) || faults.at_start)) [
        | inl bad ↦ absurd (ground (arith, rw (process, bad) at e))
        | inr good ↦
            let x = transaction event source faults t in
            let (commits_it, same) = settle-wrote faults t x result (rw (process, good) at e) in
            rw (process, good, same)
              ((transaction-Records event source faults t).recorded result commits_it)
      ]

seen-keeps :
    (event : AccessEvent) (source : AccessEventSourcePosition) (faults : Faults) (t : Tables)
    → is_some (lookup event.event_id t.processed) ≡ true
    → ((process event source faults t).0 ≡ t)
      × (((process event source faults t).1 ≡ wrote AccessStatisticsWriteResult.duplicate)
          ⊎ ((process event source faults t).1 ≡ raised write_failed))
unfolding process settle transaction insert_processed
seen-keeps event source faults t seen = ground arith

-- Once a call with an event has returned a result, and whatever is delivered after it, a further
-- call with that event changes nothing, and answers that it is a duplicate or fails, whichever
-- statements of any of these calls fail.
pub process-once :
    (event : AccessEvent) (source source' : AccessEventSourcePosition) (faults faults' : Faults)
    (t : Tables) (result : AccessStatisticsWriteResult)
    (between : List (AccessEvent × AccessEventSourcePosition × Faults))
    → (process event source faults t).1 ≡ wrote result
    → let before = deliver_all between (process event source faults t).0 in
      let again = process event source' faults' before in
      (again.0 ≡ before)
      × ((again.1 ≡ wrote AccessStatisticsWriteResult.duplicate) ⊎ (again.1 ≡ raised write_failed))
process-once event source source' faults faults' t result between e =
    seen-keeps event source' faults' (deliver_all between (process event source faults t).0) (
      deliver_all-Has event.event_id between (process event source faults t).0
        (process-found event source faults t result e))
