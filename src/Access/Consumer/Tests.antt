-- ===== src/Access/Consumer/Tests.antt =====
-- The consumer over services that fail once, and then do what they are asked.
use hao_short_link.Prelude.{
  [], bytes_eq, codes, false, if◌then◌else◌, nat_eq, none, not, refl, suc, true, ℕ, ◌==◌, ◌∷◌, ◌≡◌,
}
use hao_short_link.Prelude.Int.{int_eq, pos}
use hao_short_link.Prelude.Map.{pair_eq}
use hao_short_link.Access.Consumer.{
  ConsumerConfig, DeadLetterReason, Message, MessageResult, RetryOperation, Run, Services, commit,
  commit_with_retry, committed, counted, dead_letter, dead_letter_reason, dlq_counted, finish,
  gives, handle_message, publish, publish_to_dead_letter, published, retried, slept, succeeded,
}
use hao_short_link.Access.Consumer.Attempts.{Within}
use hao_short_link.Access.Consumer.Bounded.{handle_message-Within}
use hao_short_link.Access.Consumer.Commits.{commits_behind, has_committed, is_settled}
use hao_short_link.Access.Consumer.Handling.{handle_message-commits}
use hao_short_link.Access.Event.{AccessEventParseError, AccessEventParseResult}
use hao_short_link.Access.Writer.{AccessStatisticsWriteResult, raised, write_failed, wrote}
use hao_short_link.ShortLink.Record.{status_eq}

abbrev config : ConsumerConfig
config = record {
  topic = codes "events";
  processing_max_attempts = 3;
  retry_initial_ms = 100;
  retry_max_ms = 5000;
  offset_commit_max_attempts = 3;
}

-- The world counts the calls.
abbrev services : Services ℕ
services = record {
  process = λ event source n.
      (suc n, if n == 0 then raised write_failed else wrote AccessStatisticsWriteResult.aggregated);
  reconnect = λ n. n;
  publish = λ letter n. (suc n, not (n == 0));
  commit = λ message n. (suc n, true);
}

abbrev message : Message
message = record {
  err = none;
  key = codes "docs";
  payload = codes "{";
  partition = pos 0;
  offset = pos 4;
}

abbrev unread : AccessEventParseResult
unread = record { event = none; error = AccessEventParseError.invalid_json }

-- The first delivery of the letter fails; the second one and the commit succeed.
retries :
    (handle_message services config message unread (record { world = 0; trace = [] })).0.trace
    ≡ counted MessageResult.dlq
      ∷ succeeded
      ∷ committed true
      ∷ dlq_counted true
      ∷ published DeadLetterReason.bad_json true
      ∷ slept 100
      ∷ retried RetryOperation.dlq_publish
      ∷ dlq_counted false
      ∷ published DeadLetterReason.bad_json false
      ∷ []
unfolding handle_message dead_letter finish commit_with_retry commit publish_to_dead_letter publish
    dead_letter_reason
retries = refl

handle_message-commits_example :
    let x = handle_message services config message unread (record { world = 0; trace = [] }) in
    (commits_behind x.0.trace ≡ true)
    × (x.1 ≡ gives tt → is_settled x.0.trace ≡ true)
    × (x.1 ≡ gives tt → has_committed x.0.trace ≡ true)
handle_message-commits_example = handle_message-commits services config message unread 0 refl

abbrev start : Run ℕ
start = record { world = 0; trace = [] }

handle_message-Within_example :
    Within 3 3 3 start.trace (handle_message services config message unread start).0.trace
handle_message-Within_example = handle_message-Within services config message unread start
