-- ===== src/Access/Consumer/Bounded.antt =====
-- How often handling one message calls the services.
use hao_short_link.Prelude.{
  Bool-cases, List, Option-cases, arith, bytes_eq, inl, inr, nat_eq, ℕ, ◌==◌,
}
use hao_short_link.Prelude.Int.{int_eq}
use hao_short_link.Prelude.Map.{pair_eq}
use hao_short_link.Access.Consumer.{
  Action, ConsumerConfig, DeadLetterReason, Message, MessageResult, Result, Run, Services, commit,
  commit_with_retry, dead_letter, finish, gives, handle_message, persist_with_retry,
  publish_to_dead_letter, settle_event, thrown, write_result_metric,
}
use hao_short_link.Access.Consumer.Attempts.{
  Within, commit-Within, commits_tried, letters, persist-Within, publish-Within, same_trace, writes,
}
use hao_short_link.Access.Consumer.Handling.{result_cases}
use hao_short_link.Access.Event.{AccessEventParseResult}
use hao_short_link.Access.Writer.{AccessStatisticsWriteResult, WriteException, orphan, write_failed}
use hao_short_link.ShortLink.Record.{status_eq}

widen : {a b c : ℕ} {old new : List Action} → Within a 0 0 old new → Within a b c old new
widen h = record {
  few_writes = omega (arith, h.few_writes);
  few_letters = omega (arith, h.few_letters);
  few_commits = omega (arith, h.few_commits);
}

widen_letters : {a b c : ℕ} {old new : List Action} → Within a 0 c old new → Within a b c old new
widen_letters h = record {
  few_writes = omega (arith, h.few_writes);
  few_letters = omega (arith, h.few_letters);
  few_commits = omega (arith, h.few_commits);
}

more_room : {a b c : ℕ} {old new : List Action} → Within 0 b c old new → Within a b c old new
more_room h = record {
  few_writes = omega (arith, h.few_writes);
  few_letters = omega (arith, h.few_letters);
  few_commits = omega (arith, h.few_commits);
}

after_writes :
    {a b : ℕ} {old middle new : List Action}
    → Within a 0 0 old middle
    → Within 0 b 0 middle new
    → Within a b 0 old new
after_writes h k = record {
  few_writes = omega (arith, h.few_writes, k.few_writes);
  few_letters = omega (arith, h.few_letters, k.few_letters);
  few_commits = omega (arith, h.few_commits, k.few_commits);
}

module _ {W : Type 0} (services : Services W) (config : ConsumerConfig) where
  finish-Within :
      {A : Type 0} (message : Message) (metric : A → MessageResult) (a b : ℕ) (old : List Action)
      (x : Run W × Result WriteException A)
      → Within a b 0 old x.0.trace
      → Within a b config.offset_commit_max_attempts old
          (finish services config message metric x).0.trace
  unfolding finish commit_with_retry writes letters commits_tried
  finish-Within message metric a b old (run, thrown e) h = record {
    few_writes = omega (arith, h.few_writes);
    few_letters = omega (arith, h.few_letters);
    few_commits = omega (arith, h.few_commits);
  }
  finish-Within message metric a b old (run, gives value) h =
      let k = commit-Within services config config.offset_commit_max_attempts 1 message run in
      elim (result_cases
        (commit services config config.offset_commit_max_attempts 1 message run).1) [
          | inl (e, bad) ↦
              rw (finish, commit_with_retry, bad)
                (record {
                  few_writes = omega (arith, h.few_writes, k.few_writes);
                  few_letters = omega (arith, h.few_letters, k.few_letters);
                  few_commits = omega (arith, h.few_commits, k.few_commits);
                })
          | inr good ↦
              rw (finish, commit_with_retry, good)
                (record {
                  few_writes = omega (arith, h.few_writes, k.few_writes);
                  few_letters = omega (arith, h.few_letters, k.few_letters);
                  few_commits = omega (arith, h.few_commits, k.few_commits);
                })
        ]

  dead_letter-Within :
      (message : Message) (reason : DeadLetterReason) (a : ℕ) (old : List Action) (run : Run W)
      → Within a 0 0 old run.trace
      → Within a config.processing_max_attempts config.offset_commit_max_attempts old
          (dead_letter services config message reason run).0.trace
  unfolding dead_letter publish_to_dead_letter
  dead_letter-Within message reason a old run h =
      finish-Within message _ a config.processing_max_attempts old _
        (after_writes h (publish-Within services config config.processing_max_attempts _ _ run))

  settle_event-Within :
      (message : Message) (a : ℕ) (old : List Action)
      (x : Run W × Result WriteException AccessStatisticsWriteResult)
      → Within a 0 0 old x.0.trace
      → Within a config.processing_max_attempts config.offset_commit_max_attempts old
          (settle_event services config message x).0.trace
  unfolding settle_event
  settle_event-Within message a old (run, thrown orphan) h =
      dead_letter-Within message DeadLetterReason.orphan_short_link a old run h
  settle_event-Within message a old (run, thrown write_failed) h = widen h
  settle_event-Within message a old (run, gives result) h =
      widen_letters (finish-Within message write_result_metric a 0 old (run, gives result) h)

  -- However the services answer, handling a message ends, and it writes the event at most as often
  -- as configured, sends it to the dead-letter topic at most as often, and tries to commit its offset
  -- at most as often as configured for that.
  pub handle_message-Within :
      (message : Message) (parsed : AccessEventParseResult) (run : Run W)
      → Within config.processing_max_attempts config.processing_max_attempts
          config.offset_commit_max_attempts run.trace
          (handle_message services config message parsed run).0.trace
  unfolding handle_message persist_with_retry writes letters commits_tried
  handle_message-Within message parsed run = elim (Option-cases message.err) [
    | inr (at_end, bad) ↦ elim (Bool-cases at_end) [
      | inl ended ↦ rw (handle_message, bad, ended) (same_trace _ _ _ run.trace)
      | inr failed ↦
          rw (handle_message, bad, failed)
            (record {
              few_writes = omega arith;
              few_letters = omega arith;
              few_commits = omega arith;
            })
    ]
    | inl fine ↦ elim (Option-cases parsed.event) [
      | inl unread ↦
          rw (handle_message, fine, unread)
            (more_room (dead_letter-Within message _ 0 run.trace run (same_trace 0 0 0 run.trace)))
      | inr (event, e) ↦ elim (Bool-cases (message.key == event.code)) [
        | inr other ↦
            rw (handle_message, fine, e, other)
              (more_room
                (dead_letter-Within message _ 0 run.trace run (same_trace 0 0 0 run.trace)))
        | inl same ↦
            rw (handle_message, fine, e, same)
              (settle_event-Within message config.processing_max_attempts run.trace _ (
                persist-Within services config config.processing_max_attempts
                  config.retry_initial_ms event message run))
      ]
    ]
  ]
