-- ===== src/Access/Writer/Once.antt =====
-- An event is counted once, in the totals and in the hours alike.
use hao_short_link.Prelude.{Bytes, bytes_eq, nat_eq, some, ℕ, ◌≡◌}
use hao_short_link.Prelude.Int.{int_eq}
use hao_short_link.Prelude.Map.{lookup, pair_eq}
use hao_short_link.Access.Writer.{
  AccessTotal, ProcessedEvent, Tables, was_aggregated, was_ignored, was_received,
}
use hao_short_link.Access.Writer.Tally.{tally}
use hao_short_link.ShortLink.Metrics.Counts.{count}
use hao_short_link.ShortLink.Record.{status_eq}

abbrev pub counted_event : ProcessedEvent → ℕ
counted_event row = elim row.disposition [ was_received ↦ 0 | was_aggregated ↦ 1 | was_ignored ↦ 0 ]

-- As many events are marked as aggregated as are counted in the totals, and in the hours.
pub record IsConsistent (t : Tables) : Type 0 where
  pub in_totals :
      tally counted_event t.processed ≡ tally (λ (row : AccessTotal). row.access_count) t.totals
  pub in_hours : tally counted_event t.processed ≡ tally (λ (count : ℕ). count) t.hourly

-- A table where the event has a row that is not counted yet.
abbrev IsPending : Bytes → Tables → Type 0
IsPending event_id t =
    IsConsistent t
    × ((row : ProcessedEvent) × (lookup event_id t.processed ≡ some row) × (counted_event row ≡ 0))
