-- ===== src/Access/Writer/Deliveries.antt =====
-- Sequences of deliveries to the writer: a row of processed_access_events is never lost.
use hao_short_link.Prelude.{
  Bool, Bool-cases, Bytes, List, Option-cases, [], arith, bytes_eq, false, if◌then◌else◌, inl, inr,
  is_some, nat_eq, not, true, ◌==◌, ◌||◌, ◌∷◌, ◌≡◌,
}
use hao_short_link.Prelude.Int.{int_eq}
use hao_short_link.Prelude.Map.{insert, lookup, lookup-insert, pair_eq}
use hao_short_link.Access.Event.{AccessEvent, access_event_result_to_string, is_valid_access_event}
use hao_short_link.Access.Statistics.{is_aggregated_access_result, utc_hour_bucket_start}
use hao_short_link.Access.Writer.{
  AccessEventSourcePosition, AccessStatisticsWriteResult, Disposition, Faults, ProcessedEvent,
  Tables, Turn, add_hourly, add_total, aggregate, commits, find_and_aggregate, insert_processed,
  is_not_found, is_valid_source, process, raised, received, set_disposition, settle, throws,
  transaction, write_failed,
}

-- The tables after deliveries in their order, each with the statements that fail.
abbrev pub deliver_all : List (AccessEvent × AccessEventSourcePosition × Faults) → Tables → Tables
deliver_all [] t = t
deliver_all ((event, source, faults) ∷ rest) t = deliver_all rest (process event source faults t).0

abbrev pub Has : Bytes → Tables → Type 0
Has event_id t = is_some (lookup event_id t.processed) ≡ true

has_inserted :
    (event_id key : Bytes) (row : ProcessedEvent) (rows : List (Bytes × ProcessedEvent))
    → is_some (lookup event_id rows) ≡ true
    → is_some (lookup event_id (insert key row rows)) ≡ true
has_inserted event_id key row rows h = ground (arith, lookup-insert key event_id row rows)

pub set_disposition-Has :
    (event_id key : Bytes) (d : Disposition) (t : Tables)
    → Has event_id t
    → Has event_id (set_disposition d key t)
unfolding set_disposition
set_disposition-Has event_id key d t h = elim (Option-cases (lookup key t.processed)) [
  | inl gone ↦ rw (set_disposition, gone) h
  | inr (row, found) ↦
      rw (set_disposition, found)
        (has_inserted event_id key (record row { disposition = d }) t.processed h)
]

insert_processed-Has :
    (event_id : Bytes) (event : AccessEvent) (source : AccessEventSourcePosition) (t : Tables)
    → Has event_id t
    → Has event_id (insert_processed event source t).0
unfolding insert_processed
insert_processed-Has event_id event source t h =
    elim (Bool-cases (is_some (lookup event.event_id t.processed))) [
      | inl seen ↦ rw (insert_processed, seen) h
      | inr fresh ↦
          rw (insert_processed, fresh)
            (has_inserted event_id event.event_id (received event source) t.processed h)
    ]

either-Has {ℓ} :
    {A : Type ℓ} (event_id : Bytes) (b : Bool) (x y : Tables × A)
    → Has event_id x.0
    → Has event_id y.0
    → Has event_id (if b then x else y).0
either-Has event_id true x y hx hy = hx
either-Has event_id false x y hx hy = hy

find_and_aggregate-Has :
    (event_id : Bytes) (event : AccessEvent) (faults : Faults) (t : Tables)
    → Has event_id t
    → Has event_id (find_and_aggregate event faults t).0
unfolding find_and_aggregate aggregate add_total add_hourly
find_and_aggregate-Has event_id event faults t h =
    elim (Option-cases (lookup event.code t.short_links)) [
      | inl gone ↦ rw (find_and_aggregate, gone) h
      | inr (link_id, found) ↦ elim (Option-cases (utc_hour_bucket_start event.occurred_at_ms)) [
        | inl early ↦ rw (find_and_aggregate, found, early) h
        | inr (bucket, at) ↦
            let result = access_event_result_to_string event.result in
            let counted =
              add_hourly link_id bucket result (add_total link_id result event.occurred_at_ms t) in
            rw (find_and_aggregate, found, at)
              (either-Has event_id (faults.at_totals || faults.at_hourly || faults.at_disposition)
                (t, throws write_failed) _ h
                (set_disposition-Has event_id event.event_id Disposition.was_aggregated counted h))
      ]
    ]

transaction-Has :
    (event_id : Bytes) (event : AccessEvent) (source : AccessEventSourcePosition) (faults : Faults)
    (t : Tables)
    → Has event_id t
    → Has event_id (transaction event source faults t).0
unfolding transaction
transaction-Has event_id event source faults t h =
    let t₁ = (insert_processed event source t).0 in
    let has = insert_processed-Has event_id event source t h in
    either-Has event_id faults.at_insert (t, throws write_failed) _ h
      (either-Has event_id ((insert_processed event source t).1 == 0)
        (t₁, commits AccessStatisticsWriteResult.duplicate) _ has
        (either-Has event_id (is_not_found event.result) _ _
          (either-Has event_id faults.at_disposition (t₁, throws write_failed) _ has
            (set_disposition-Has event_id event.event_id Disposition.was_ignored t₁ has))
          (either-Has event_id (not (is_aggregated_access_result event.result))
            (t₁, throws write_failed) _ has
            (either-Has event_id faults.at_select (t₁, throws write_failed) _ has
              (find_and_aggregate-Has event_id event faults t₁ has)))))

settle-Has :
    (event_id : Bytes) (faults : Faults) (before : Tables) (x : Tables × Turn)
    → Has event_id before
    → Has event_id x.0
    → Has event_id (settle faults before x).0
unfolding settle
settle-Has event_id faults before (after, throws e) h hx = h
settle-Has event_id faults before (after, commits result) h hx = ground arith

process-Has :
    (event_id : Bytes) (event : AccessEvent) (source : AccessEventSourcePosition) (faults : Faults)
    (t : Tables)
    → Has event_id t
    → Has event_id (process event source faults t).0
unfolding process
process-Has event_id event source faults t h =
    either-Has event_id
      (not (is_valid_access_event event) || not (is_valid_source source) || faults.at_start)
      (t, raised write_failed) _ h
      (settle-Has event_id faults t _ h (transaction-Has event_id event source faults t h))

pub deliver_all-Has :
    (event_id : Bytes) (deliveries : List (AccessEvent × AccessEventSourcePosition × Faults))
    (t : Tables)
    → Has event_id t
    → Has event_id (deliver_all deliveries t)
deliver_all-Has event_id [] t h = h
deliver_all-Has event_id ((event, source, faults) ∷ rest) t h =
    deliver_all-Has event_id rest (process event source faults t).0
      (process-Has event_id event source faults t h)
