-- ===== src/Access/Consumer/Attempts.antt =====
-- How often the loops of the consumer call the services.
-- How often the services were called.
use hao_short_link.Prelude.{
  Bool-cases, List, [], arith, bytes_eq, inl, inr, nat_eq, suc, zero, ℕ, ◌+◌, ◌==◌, ◌∷◌, ◌≤◌,
}
use hao_short_link.Prelude.Int.{int_eq}
use hao_short_link.Prelude.Map.{pair_eq}
use hao_short_link.Access.Consumer.{
  Action, ConsumerConfig, DeadLetterRecord, Message, Run, Services, commit, committed, counted,
  dlq_counted, next_retry_delay_ms, persist, position, processed, publish, published, reconnected,
  retried, slept, succeeded,
}
use hao_short_link.Access.Consumer.Commits.{outcome_cases}
use hao_short_link.Access.Event.{AccessEvent}
use hao_short_link.ShortLink.Record.{status_eq}

unfoldable pub writes : List Action → ℕ
writes [] = 0
writes (processed out ∷ older) = suc (writes older)
writes (published reason delivered ∷ older) = writes older
writes (committed done ∷ older) = writes older
writes (reconnected ∷ older) = writes older
writes (counted result ∷ older) = writes older
writes (retried operation ∷ older) = writes older
writes (dlq_counted delivered ∷ older) = writes older
writes (succeeded ∷ older) = writes older
writes (slept ms ∷ older) = writes older

unfoldable pub letters : List Action → ℕ
letters [] = 0
letters (processed out ∷ older) = letters older
letters (published reason delivered ∷ older) = suc (letters older)
letters (committed done ∷ older) = letters older
letters (reconnected ∷ older) = letters older
letters (counted result ∷ older) = letters older
letters (retried operation ∷ older) = letters older
letters (dlq_counted delivered ∷ older) = letters older
letters (succeeded ∷ older) = letters older
letters (slept ms ∷ older) = letters older

unfoldable pub commits_tried : List Action → ℕ
commits_tried [] = 0
commits_tried (processed out ∷ older) = commits_tried older
commits_tried (published reason delivered ∷ older) = commits_tried older
commits_tried (committed done ∷ older) = suc (commits_tried older)
commits_tried (reconnected ∷ older) = commits_tried older
commits_tried (counted result ∷ older) = commits_tried older
commits_tried (retried operation ∷ older) = commits_tried older
commits_tried (dlq_counted delivered ∷ older) = commits_tried older
commits_tried (succeeded ∷ older) = commits_tried older
commits_tried (slept ms ∷ older) = commits_tried older

-- At most so many calls more.
pub record Within (writes_left letters_left commits_left : ℕ) (before after : List Action)
    : Type 0 where
  pub few_writes : writes after ≤ writes_left + writes before
  pub few_letters : letters after ≤ letters_left + letters before
  pub few_commits : commits_tried after ≤ commits_left + commits_tried before

pub same_trace : (a b c : ℕ) (trace : List Action) → Within a b c trace trace
same_trace a b c trace = record {
  few_writes = omega arith;
  few_letters = omega arith;
  few_commits = omega arith;
}

more_writes :
    {a b c : ℕ} {old middle new : List Action}
    → Within a b c middle new
    → writes middle ≤ suc (writes old)
    → letters middle ≤ letters old
    → commits_tried middle ≤ commits_tried old
    → Within (suc a) b c old new
more_writes h x y z = record {
  few_writes = omega (arith, h.few_writes, x);
  few_letters = omega (arith, h.few_letters, y);
  few_commits = omega (arith, h.few_commits, z);
}

more_letters :
    {a b c : ℕ} {old middle new : List Action}
    → Within a b c middle new
    → writes middle ≤ writes old
    → letters middle ≤ suc (letters old)
    → commits_tried middle ≤ commits_tried old
    → Within a (suc b) c old new
more_letters h x y z = record {
  few_writes = omega (arith, h.few_writes, x);
  few_letters = omega (arith, h.few_letters, y);
  few_commits = omega (arith, h.few_commits, z);
}

more_commits :
    {a b c : ℕ} {old middle new : List Action}
    → Within a b c middle new
    → writes middle ≤ writes old
    → letters middle ≤ letters old
    → commits_tried middle ≤ suc (commits_tried old)
    → Within a b (suc c) old new
more_commits h x y z = record {
  few_writes = omega (arith, h.few_writes, x);
  few_letters = omega (arith, h.few_letters, y);
  few_commits = omega (arith, h.few_commits, z);
}

module _ {W : Type 0} (services : Services W) (config : ConsumerConfig) where
  pub persist-Within :
      (attempts delay_ms : ℕ) (event : AccessEvent) (message : Message) (run : Run W)
      → Within attempts 0 0 run.trace
          (persist services config attempts delay_ms event message run).0.trace
  unfolding persist writes letters commits_tried
  persist-Within zero delay_ms event message run = same_trace _ _ _ run.trace
  persist-Within (suc left) delay_ms event message run =
      let delay_ms' = next_retry_delay_ms delay_ms config.retry_max_ms in
      let out = (services.process event (position services config message) run.world).1 in
      elim (outcome_cases out) [
        | inl (result, e) ↦
            rw (persist, e)
              (record {
                few_writes = omega (arith);
                few_letters = omega (arith);
                few_commits = omega (arith);
              })
        | inr (inl e) ↦
            rw (persist, e)
              (record {
                few_writes = omega (arith);
                few_letters = omega (arith);
                few_commits = omega (arith);
              })
        | inr (inr e) ↦ elim (Bool-cases (left == 0)) [
          | inl last ↦
              rw (persist, e, last)
                (record {
                  few_writes = omega (arith);
                  few_letters = omega (arith);
                  few_commits = omega (arith);
                })
          | inr more ↦
              rw (persist, e, more)
                (more_writes (persist-Within left delay_ms' event message _) (omega arith)
                  (omega arith) (omega arith))
        ]
      ]

  pub publish-Within :
      (attempts delay_ms : ℕ) (letter : DeadLetterRecord) (run : Run W)
      → Within 0 attempts 0 run.trace (publish services config attempts delay_ms letter run).0.trace
  unfolding publish writes letters commits_tried
  publish-Within zero delay_ms letter run = record {
    few_writes = omega arith;
    few_letters = omega arith;
    few_commits = omega arith;
  }
  publish-Within (suc left) delay_ms letter run =
      let delay_ms' = next_retry_delay_ms delay_ms config.retry_max_ms in
      elim (Bool-cases (services.publish letter run.world).1) [
        | inl sent ↦
            rw (publish, sent)
              (record {
                few_writes = omega (arith);
                few_letters = omega (arith);
                few_commits = omega (arith);
              })
        | inr lost ↦ elim (Bool-cases (left == 0)) [
          | inl last ↦
              rw (publish, lost, last)
                (more_letters (publish-Within left delay_ms letter _) (omega arith) (omega arith)
                  (omega arith))
          | inr more ↦
              rw (publish, lost, more)
                (more_letters (publish-Within left delay_ms' letter _) (omega arith) (omega arith)
                  (omega arith))
        ]
      ]

  pub commit-Within :
      (attempts attempt : ℕ) (message : Message) (run : Run W)
      → Within 0 0 attempts run.trace (commit services config attempts attempt message run).0.trace
  unfolding commit writes letters commits_tried
  commit-Within zero attempt message run = record {
    few_writes = omega arith;
    few_letters = omega arith;
    few_commits = omega arith;
  }
  commit-Within (suc left) attempt message run =
      elim (Bool-cases (services.commit message run.world).1) [
        | inl done ↦
            rw (commit, done)
              (record {
                few_writes = omega (arith);
                few_letters = omega (arith);
                few_commits = omega (arith);
              })
        | inr lost ↦ elim (Bool-cases (left == 0)) [
          | inl last ↦
              rw (commit, lost, last)
                (more_commits (commit-Within left (suc attempt) message _) (omega arith)
                  (omega arith) (omega arith))
          | inr more ↦
              rw (commit, lost, more)
                (more_commits (commit-Within left (suc attempt) message _) (omega arith)
                  (omega arith) (omega arith))
        ]
      ]
