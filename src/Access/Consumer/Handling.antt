-- ===== src/Access/Consumer/Handling.antt =====
-- An offset is committed only behind its event, and a message that is handled is committed.
use hao_short_link.Prelude.{
  Bool-cases, Option-cases, [], arith, bytes_eq, inl, inr, nat_eq, none, refl, true, ◌==◌, ◌≡◌, ◌⊎◌,
}
use hao_short_link.Prelude.Int.{int_eq}
use hao_short_link.Prelude.Map.{pair_eq}
use hao_short_link.Access.Consumer.{
  ConsumerConfig, DeadLetterReason, Message, MessageResult, Result, Run, Services, commit,
  commit_with_retry, dead_letter, finish, gives, handle_message, persist_with_retry,
  publish_to_dead_letter, settle_event, thrown, write_result_metric,
}
use hao_short_link.Access.Consumer.Commits.{
  Behind, commit-Behind, commit-committed, commits_behind, has_committed, is_settled,
  persist-Behind, publish-Behind,
}
use hao_short_link.Access.Event.{AccessEventParseResult}
use hao_short_link.Access.Writer.{AccessStatisticsWriteResult, WriteException, orphan, write_failed}
use hao_short_link.ShortLink.Record.{status_eq}

pub result_cases :
    (r : Result WriteException (Unit {0}))
    → ((e : WriteException) × (r ≡ thrown e)) ⊎ (r ≡ gives tt)
result_cases (thrown e) = inl (e, refl)
result_cases (gives tt) = inr refl

module _ {W : Type 0} (services : Services W) (config : ConsumerConfig) where
  -- What is asked of a whole step: the order, and a commit if it succeeds.
  record Handled (x : Run W × Result WriteException (Unit {0})) : Type 0 where
    in_order : commits_behind x.0.trace ≡ true
    settled : x.1 ≡ gives tt → is_settled x.0.trace ≡ true
    recorded : x.1 ≡ gives tt → has_committed x.0.trace ≡ true

  failed-Handled :
      (run : Run W) (e : WriteException) → commits_behind run.trace ≡ true → Handled (run, thrown e)
  failed-Handled run e h = record {
    in_order = h;
    settled = λ eq. absurd (ground arith);
    recorded = λ eq. absurd (ground arith);
  }

  finish-Handled :
      {A : Type 0} (message : Message) (metric : A → MessageResult)
      (x : Run W × Result WriteException A)
      → Behind x
      → Handled (finish services config message metric x)
  unfolding finish commit_with_retry commits_behind is_settled has_committed
  finish-Handled message metric (run, thrown e) b = failed-Handled run e b.in_order
  finish-Handled message metric (run, gives a) b =
      let attempts = config.offset_commit_max_attempts in
      let settled = b.settled a refl in
      let behind = commit-Behind services config attempts 1 message run b.in_order settled in
      elim (result_cases (commit services config attempts 1 message run).1) [
        | inl (e, bad) ↦ rw (finish, commit_with_retry, bad) (failed-Handled _ e behind.in_order)
        | inr good ↦
            rw (finish, commit_with_retry, good)
              (record {
                in_order = behind.in_order;
                settled = λ eq. behind.settled tt good;
                recorded = λ eq. commit-committed services config attempts 1 message run good;
              })
      ]

  dead_letter-Handled :
      (message : Message) (reason : DeadLetterReason) (run : Run W)
      → commits_behind run.trace ≡ true
      → Handled (dead_letter services config message reason run)
  unfolding dead_letter publish_to_dead_letter
  dead_letter-Handled message reason run h =
      finish-Handled message _ _
        (publish-Behind services config config.processing_max_attempts _ _ run h)

  settle_event-Handled :
      (message : Message) (x : Run W × Result WriteException AccessStatisticsWriteResult)
      → Behind x
      → Handled (settle_event services config message x)
  unfolding settle_event
  settle_event-Handled message (run, thrown orphan) b =
      dead_letter-Handled message DeadLetterReason.orphan_short_link run b.in_order
  settle_event-Handled message (run, thrown write_failed) b =
      failed-Handled run write_failed b.in_order
  settle_event-Handled message (run, gives result) b =
      finish-Handled message write_result_metric (run, gives result) b

  handle_message-Handled :
      (message : Message) (parsed : AccessEventParseResult) (run : Run W)
      → message.err ≡ none
      → commits_behind run.trace ≡ true
      → Handled (handle_message services config message parsed run)
  unfolding handle_message persist_with_retry
  handle_message-Handled message parsed run fine h = elim (Option-cases parsed.event) [
    | inl bad ↦ rw (handle_message, fine, bad) (dead_letter-Handled message _ run h)
    | inr (event, e) ↦ elim (Bool-cases (message.key == event.code)) [
      | inr other ↦ rw (handle_message, fine, e, other) (dead_letter-Handled message _ run h)
      | inl same ↦
          rw (handle_message, fine, e, same)
            (settle_event-Handled message _ (
              persist-Behind services config config.processing_max_attempts config.retry_initial_ms
                event message run h))
    ]
  ]

  -- Whatever the services answer, an attempt to commit a message's offset comes only after its event
  -- was recorded in the statistics or delivered to the dead-letter topic; and if handling a message
  -- that is not an error returns, the event was settled so and the offset is committed.
  pub handle_message-commits :
      (message : Message) (parsed : AccessEventParseResult) (world : W)
      → message.err ≡ none
      → let x =
          handle_message services config message parsed (record { world = world; trace = [] }) in
        (commits_behind x.0.trace ≡ true)
        × (x.1 ≡ gives tt → is_settled x.0.trace ≡ true)
        × (x.1 ≡ gives tt → has_committed x.0.trace ≡ true)
  unfolding commits_behind
  handle_message-commits message parsed world fine =
      let handled =
        handle_message-Handled message parsed (record { world = world; trace = [] }) fine refl in
      (handled.in_order, handled.settled, handled.recorded)
