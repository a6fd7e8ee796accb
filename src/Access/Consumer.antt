-- ===== src/Access/Consumer.antt =====
-- apps/shortlink_event_consumer: `handleMessage` of src/main.cpp with its retries, over services that
-- are parameters: the statistics writer, the dead-letter producer and Kafka's commit. What a run
-- does is kept in a trace, newest first; log lines and the lag gauge are left out.
pub mod Commits
pub mod Handling
pub mod Attempts
pub mod Bounded
mod Tests
use hao_short_link.Prelude.{
  Bool, Bytes, List, Option, bytes_eq, if◌then◌else◌, leb, nat_eq, none, not, some, suc, zero, ℕ,
  ◌*◌, ◌-◌, ◌==◌, ◌∷◌,
}
use hao_short_link.Prelude.Int.{int_eq, ℤ}
use hao_short_link.Prelude.Map.{pair_eq}
use hao_short_link.Access.Event.{AccessEvent, AccessEventParseError, AccessEventParseResult}
use hao_short_link.Access.Writer.{
  AccessEventSourcePosition, AccessStatisticsWriteResult, WriteException, WriteOutcome, orphan,
  process, raised, write_failed, wrote,
}
use hao_short_link.ShortLink.Record.{status_eq}

pub data DeadLetterReason : Type 0 where
  bad_json bad_schema bad_event_type bad_contract key_code_mismatch orphan_short_link :
      DeadLetterReason

pub record DeadLetterRecord : Type 0 where
  pub source_topic : Bytes
  pub source_partition : ℤ
  pub source_offset : ℤ
  pub key : Bytes
  pub payload : Bytes
  pub reason : DeadLetterReason

-- `err` is none for RD_KAFKA_RESP_ERR_NO_ERROR, and true for the end of a partition.
pub record Message : Type 0 where
  pub err : Option Bool
  pub key : Bytes
  pub payload : Bytes
  pub partition : ℤ
  pub offset : ℤ

pub record ConsumerConfig : Type 0 where
  pub topic : Bytes
  pub processing_max_attempts : ℕ
  pub retry_initial_ms : ℕ
  pub retry_max_ms : ℕ
  pub offset_commit_max_attempts : ℕ

pub data MessageResult : Type 0 where
  aggregated duplicate ignored dlq error : MessageResult

pub data RetryOperation : Type 0 where
  mysql offset_commit dlq_publish : RetryOperation

-- What a run does: the calls with their results, the metrics, and the pauses.
pub data Action : Type 0 where
  processed : WriteOutcome → Action
  reconnected : Action
  published : DeadLetterReason → Bool → Action
  committed : Bool → Action
  counted : MessageResult → Action
  retried : RetryOperation → Action
  dlq_counted : Bool → Action
  succeeded : Action
  slept : ℕ → Action

pub record Services (W : Type 0) : Type 0 where
  pub process : AccessEvent → AccessEventSourcePosition → W → W × WriteOutcome
  pub reconnect : W → W
  pub publish : DeadLetterRecord → W → W × Bool
  pub commit : Message → W → W × Bool

pub record Run (W : Type 0) : Type 0 where
  pub world : W
  pub trace : List Action

unfoldable pub dead_letter_reason : AccessEventParseError → DeadLetterReason
dead_letter_reason AccessEventParseError.invalid_json = DeadLetterReason.bad_json
dead_letter_reason AccessEventParseError.unsupported_schema = DeadLetterReason.bad_schema
dead_letter_reason AccessEventParseError.unsupported_event_type = DeadLetterReason.bad_event_type
dead_letter_reason AccessEventParseError.invalid_contract = DeadLetterReason.bad_contract
dead_letter_reason AccessEventParseError.no_error = DeadLetterReason.bad_contract

unfoldable pub write_result_metric : AccessStatisticsWriteResult → MessageResult
write_result_metric AccessStatisticsWriteResult.aggregated = MessageResult.aggregated
write_result_metric AccessStatisticsWriteResult.duplicate = MessageResult.duplicate
write_result_metric AccessStatisticsWriteResult.ignored_not_found = MessageResult.ignored

-- `delayMs >= maximumMs - delayMs`; where the difference would be negative, the test holds.
unfoldable pub next_retry_delay_ms : ℕ → ℕ → ℕ
next_retry_delay_ms delay_ms maximum_ms =
    if leb (maximum_ms - delay_ms) delay_ms then maximum_ms else delay_ms * 2

-- A method that may throw `E`.
pub data Result (E A : Type 0) : Type 0 where
  gives : A → Result E A
  thrown : E → Result E A

module _ {W : Type 0} (services : Services W) (config : ConsumerConfig) where
  abbrev pub note : Action → Run W → Run W
  note a run = record run { trace = a ∷ run.trace }

  abbrev pub at_world : W → Action → Run W → Run W
  at_world w a run = record { world = w; trace = a ∷ run.trace }

  abbrev pub position : Message → AccessEventSourcePosition
  position message = record {
    topic = config.topic;
    partition = message.partition;
    offset = message.offset;
  }

  -- The loop of `persistWithRetry`, with the attempts that are left; `attempt` equals the maximum at
  -- the last one.
  unfoldable pub persist :
      ℕ
      → ℕ
      → AccessEvent
      → Message
      → Run W
      → Run W × Result WriteException AccessStatisticsWriteResult
  persist zero delay_ms event message run = (run, thrown write_failed)
  persist (suc left) delay_ms event message run =
      let (w, out) = services.process event (position message) run.world in
      let run₁ = at_world w (processed out) run in
      let paused = note (slept delay_ms) (note (retried RetryOperation.mysql) run₁) in
      let again =
        persist left (next_retry_delay_ms delay_ms config.retry_max_ms) event message
          (at_world (services.reconnect paused.world) reconnected paused) in
      elim out [
        | wrote result ↦ (run₁, gives result)
        | raised e ↦ elim e [
          | orphan ↦ (run₁, thrown orphan)
          | write_failed ↦
              if left == 0
              then (note (counted MessageResult.error) run₁, thrown write_failed)
              else again
        ]
      ]

  unfoldable pub persist_with_retry :
      AccessEvent → Message → Run W → Run W × Result WriteException AccessStatisticsWriteResult
  persist_with_retry event message run =
      persist config.processing_max_attempts config.retry_initial_ms event message run

  -- The loop of `publishToDeadLetter`.
  unfoldable pub publish :
      ℕ → ℕ → DeadLetterRecord → Run W → Run W × Result WriteException (Unit {0})
  publish zero delay_ms letter run = (note (counted MessageResult.error) run, thrown write_failed)
  publish (suc left) delay_ms letter run =
      let (w, delivered) = services.publish letter run.world in
      let run₁ =
        note (dlq_counted delivered) (at_world w (published letter.reason delivered) run) in
      let paused = note (slept delay_ms) (note (retried RetryOperation.dlq_publish) run₁) in
      let last = publish left delay_ms letter run₁ in
      let again = publish left (next_retry_delay_ms delay_ms config.retry_max_ms) letter paused in
      if delivered then (run₁, gives tt) else if left == 0 then last else again

  unfoldable pub publish_to_dead_letter :
      Message → DeadLetterReason → Run W → Run W × Result WriteException (Unit {0})
  publish_to_dead_letter message reason run =
      publish config.processing_max_attempts config.retry_initial_ms
        (record {
          source_topic = config.topic;
          source_partition = message.partition;
          source_offset = message.offset;
          key = message.key;
          payload = message.payload;
          reason = reason;
        })
        run

  -- The loop of `commitWithRetry`, with the attempts that are left and the number of this one.
  unfoldable pub commit : ℕ → ℕ → Message → Run W → Run W × Result WriteException (Unit {0})
  commit zero attempt message run = (note (counted MessageResult.error) run, thrown write_failed)
  commit (suc left) attempt message run =
      let (w, done) = services.commit message run.world in
      let run₁ = at_world w (committed done) run in
      let paused =
        note (slept (100 * attempt)) (note (retried RetryOperation.offset_commit) run₁) in
      let last = commit left (suc attempt) message run₁ in
      let again = commit left (suc attempt) message paused in
      if done then (note succeeded run₁, gives tt) else if left == 0 then last else again

  unfoldable pub commit_with_retry : Message → Run W → Run W × Result WriteException (Unit {0})
  commit_with_retry message run = commit config.offset_commit_max_attempts 1 message run

  -- The commit and the metric after a step that did not throw.
  unfoldable pub finish :
      {A : Type 0}
      → Message
      → (A → MessageResult)
      → Run W × Result WriteException A
      → Run W × Result WriteException (Unit {0})
  finish message metric (run, thrown e) = (run, thrown e)
  finish message metric (run, gives a) =
      let (run₁, out) = commit_with_retry message run in
      elim out [
        | thrown e ↦ (run₁, thrown e)
        | gives done ↦ (note (counted (metric a)) run₁, gives tt)
      ]

  unfoldable pub dead_letter :
      Message → DeadLetterReason → Run W → Run W × Result WriteException (Unit {0})
  dead_letter message reason run =
      finish message (λ _. MessageResult.dlq) (publish_to_dead_letter message reason run)

  -- The `try` around `persistWithRetry`, and what follows.
  unfoldable pub settle_event :
      Message
      → Run W × Result WriteException AccessStatisticsWriteResult
      → Run W × Result WriteException (Unit {0})
  settle_event message (run, thrown orphan) =
      dead_letter message DeadLetterReason.orphan_short_link run
  settle_event message (run, thrown write_failed) = (run, thrown write_failed)
  settle_event message (run, gives result) = finish message write_result_metric (run, gives result)

  -- `handleMessage`, with what `parseAccessEventDetailed` makes of the payload.
  unfoldable pub handle_message :
      Message → AccessEventParseResult → Run W → Run W × Result WriteException (Unit {0})
  handle_message message parsed run = elim message.err [
    | some at_end ↦ ((if at_end then run else note (slept 250) run), gives tt)
    | none ↦ elim parsed.event [
      | none ↦ dead_letter message (dead_letter_reason parsed.error) run
      | some event ↦
          if not (message.key == event.code)
          then dead_letter message DeadLetterReason.key_code_mismatch run
          else settle_event message (persist_with_retry event message run)
    ]
  ]
