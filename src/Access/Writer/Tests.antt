-- ===== src/Access/Writer/Tests.antt =====
-- The writer at one event and one link.
use hao_short_link.Prelude.{[], bytes_beq, bytes_eq, codes, false, nat_eq, refl, ◌∷◌, ◌≡◌, ◌⊎◌}
use hao_short_link.Prelude.Int.{int_eq, pos}
use hao_short_link.Prelude.Map.{lookup, pair_eq}
use hao_short_link.Access.Event.{
  AccessEvent, AccessEventResult, expected_http_status, is_lowercase_hex, is_safe_request_id,
  is_valid_access_event,
}
use hao_short_link.Access.Statistics.{is_aggregated_access_result, utc_hour_bucket_start}
use hao_short_link.Access.Writer.{
  AccessEventSourcePosition, AccessStatisticsWriteResult, Faults, Tables, aggregate,
  find_and_aggregate, insert_processed, is_valid_source, process, raised, settle, transaction,
  write_failed, wrote,
}
use hao_short_link.Access.Writer.Deliveries.{deliver_all}
use hao_short_link.Access.Writer.Redelivery.{process-once}

abbrev event : AccessEvent
event = record {
  event_id = codes "00000000000000010000000000000002";
  occurred_at_ms = pos 1709208000000;
  request_id = codes "req-1";
  code = codes "docs";
  result = AccessEventResult.success;
  http_status = pos 302;
}

abbrev source : AccessEventSourcePosition
source = record { topic = codes "events"; partition = pos 0; offset = pos 4 }

abbrev tables : Tables
tables = record { processed = []; short_links = (codes "docs", 1) ∷ []; totals = []; hourly = [] }

abbrev no_faults : Faults
no_faults = record {
  at_start = false;
  at_insert = false;
  at_select = false;
  at_totals = false;
  at_hourly = false;
  at_disposition = false;
  at_commit = false;
  commit_applied = false;
}

abbrev other_event : AccessEvent
other_event = record event { event_id = codes "00000000000000010000000000000003" }

process-once_example :
    let before =
      deliver_all
        ((other_event, source, no_faults) ∷ [])
        (process event source no_faults tables).0 in
    let again = process event source no_faults before in
    (again.0 ≡ before)
    × ((again.1 ≡ wrote AccessStatisticsWriteResult.duplicate) ⊎ (again.1 ≡ raised write_failed))
unfolding process is_valid_access_event is_lowercase_hex is_safe_request_id expected_http_status
    is_valid_source settle transaction insert_processed lookup is_aggregated_access_result
    find_and_aggregate bytes_beq utc_hour_bucket_start aggregate
process-once_example =
    process-once event source source no_faults no_faults tables
      AccessStatisticsWriteResult.aggregated ((other_event, source, no_faults) ∷ []) refl
