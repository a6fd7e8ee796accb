-- ===== src/Access/Consumer/Commits.antt =====
-- The loops of the consumer: what has happened when they end.
-- The event has been recorded, or delivered to the dead-letter topic.
use hao_short_link.Prelude.{
  Bool, Bool-cases, List, [], ap, arith, bytes_eq, false, inl, inr, nat_eq, refl, suc, true, zero,
  ℕ, ◌&&◌, ◌==◌, ◌∷◌, ◌≡◌, ◌⊎◌,
}
use hao_short_link.Prelude.Int.{int_eq}
use hao_short_link.Prelude.Map.{pair_eq}
use hao_short_link.Access.Consumer.{
  Action, ConsumerConfig, DeadLetterRecord, Message, Result, Run, Services, commit, committed,
  counted, dlq_counted, gives, next_retry_delay_ms, persist, position, processed, publish,
  published, reconnected, retried, slept, succeeded, thrown,
}
use hao_short_link.Access.Event.{AccessEvent}
use hao_short_link.Access.Writer.{
  AccessStatisticsWriteResult, WriteException, WriteOutcome, orphan, raised, write_failed, wrote,
}
use hao_short_link.ShortLink.Record.{status_eq}

unfoldable pub is_settled : List Action → Bool
is_settled [] = false
is_settled (processed (wrote result) ∷ older) = true
is_settled (processed (raised e) ∷ older) = is_settled older
is_settled (published reason true ∷ older) = true
is_settled (published reason false ∷ older) = is_settled older
is_settled (reconnected ∷ older) = is_settled older
is_settled (committed done ∷ older) = is_settled older
is_settled (counted result ∷ older) = is_settled older
is_settled (retried operation ∷ older) = is_settled older
is_settled (dlq_counted delivered ∷ older) = is_settled older
is_settled (succeeded ∷ older) = is_settled older
is_settled (slept ms ∷ older) = is_settled older

-- Every commit in the trace, the oldest last, comes after the event was settled.
unfoldable pub commits_behind : List Action → Bool
commits_behind [] = true
commits_behind (committed done ∷ older) = is_settled older && commits_behind older
commits_behind (processed out ∷ older) = commits_behind older
commits_behind (published reason delivered ∷ older) = commits_behind older
commits_behind (reconnected ∷ older) = commits_behind older
commits_behind (counted result ∷ older) = commits_behind older
commits_behind (retried operation ∷ older) = commits_behind older
commits_behind (dlq_counted delivered ∷ older) = commits_behind older
commits_behind (succeeded ∷ older) = commits_behind older
commits_behind (slept ms ∷ older) = commits_behind older

-- A commit has been acknowledged.
unfoldable pub has_committed : List Action → Bool
has_committed [] = false
has_committed (committed true ∷ older) = true
has_committed (committed false ∷ older) = has_committed older
has_committed (processed out ∷ older) = has_committed older
has_committed (published reason delivered ∷ older) = has_committed older
has_committed (reconnected ∷ older) = has_committed older
has_committed (counted result ∷ older) = has_committed older
has_committed (retried operation ∷ older) = has_committed older
has_committed (dlq_counted delivered ∷ older) = has_committed older
has_committed (succeeded ∷ older) = has_committed older
has_committed (slept ms ∷ older) = has_committed older

pub outcome_cases :
    (out : WriteOutcome)
    → ((result : AccessStatisticsWriteResult) × (out ≡ wrote result))
      ⊎ ((out ≡ raised orphan) ⊎ (out ≡ raised write_failed))
outcome_cases (wrote result) = inl (result, refl)
outcome_cases (raised orphan) = inr (inl refl)
outcome_cases (raised write_failed) = inr (inr refl)

both : {a b : Bool} → a ≡ true → b ≡ true → (a && b) ≡ true
both {a} {b} h k = ground arith

module _ {W : Type 0} where
  -- The trace is in order, and the event is settled if the step has succeeded.
  pub record Behind {A : Type 0} (x : Run W × Result WriteException A) : Type 0 where
    pub in_order : commits_behind x.0.trace ≡ true
    pub settled : (a : A) → x.1 ≡ gives a → is_settled x.0.trace ≡ true

  failed-Behind :
      {A : Type 0} (run : Run W) (e : WriteException)
      → commits_behind run.trace ≡ true
      → Behind {A = A} (run, thrown e)
  failed-Behind run e h = record { in_order = h; settled = λ a eq. absurd (ground arith) }

  done-Behind :
      {A : Type 0} (run : Run W) (a : A)
      → commits_behind run.trace ≡ true
      → is_settled run.trace ≡ true
      → Behind (run, gives a)
  done-Behind run a h s = record { in_order = h; settled = λ a' eq. s }

module _ {W : Type 0} (services : Services W) (config : ConsumerConfig) where
  pub persist-Behind :
      (attempts delay_ms : ℕ) (event : AccessEvent) (message : Message) (run : Run W)
      → commits_behind run.trace ≡ true
      → Behind (persist services config attempts delay_ms event message run)
  unfolding persist commits_behind is_settled
  persist-Behind zero delay_ms event message run h = failed-Behind run write_failed h
  persist-Behind (suc left) delay_ms event message run h =
      let out = (services.process event (position services config message) run.world).1 in
      elim (outcome_cases out) [
        | inl (result, e) ↦
            rw (persist, e)
              (done-Behind _ result h (ap (λ o. is_settled (processed o ∷ run.trace)) e))
        | inr (inl e) ↦ rw (persist, e) (failed-Behind _ orphan h)
        | inr (inr e) ↦ elim (Bool-cases (left == 0)) [
          | inl last ↦ rw (persist, e, last) (failed-Behind _ write_failed h)
          | inr more ↦
              rw (persist, e, more)
                (persist-Behind left (next_retry_delay_ms delay_ms config.retry_max_ms) event
                  message _ h)
        ]
      ]

  pub publish-Behind :
      (attempts delay_ms : ℕ) (letter : DeadLetterRecord) (run : Run W)
      → commits_behind run.trace ≡ true
      → Behind (publish services config attempts delay_ms letter run)
  unfolding publish commits_behind is_settled
  publish-Behind zero delay_ms letter run h = failed-Behind _ write_failed h
  publish-Behind (suc left) delay_ms letter run h =
      elim (Bool-cases (services.publish letter run.world).1) [
        | inl sent ↦ rw (publish, sent) (done-Behind _ tt h refl)
        | inr lost ↦ elim (Bool-cases (left == 0)) [
          | inl last ↦ rw (publish, lost, last) (publish-Behind left delay_ms letter _ h)
          | inr more ↦
              rw (publish, lost, more)
                (publish-Behind left (next_retry_delay_ms delay_ms config.retry_max_ms) letter _ h)
        ]
      ]

  pub commit-Behind :
      (attempts attempt : ℕ) (message : Message) (run : Run W)
      → commits_behind run.trace ≡ true
      → is_settled run.trace ≡ true
      → Behind (commit services config attempts attempt message run)
  unfolding commit commits_behind is_settled
  commit-Behind zero attempt message run h s = failed-Behind _ write_failed h
  commit-Behind (suc left) attempt message run h s =
      elim (Bool-cases (services.commit message run.world).1) [
        | inl done ↦ rw (commit, done) (done-Behind _ tt (both s h) s)
        | inr lost ↦ elim (Bool-cases (left == 0)) [
          | inl last ↦
              rw (commit, lost, last) (commit-Behind left (suc attempt) message _ (both s h) s)
          | inr more ↦
              rw (commit, lost, more) (commit-Behind left (suc attempt) message _ (both s h) s)
        ]
      ]

  pub commit-committed :
      (attempts attempt : ℕ) (message : Message) (run : Run W)
      → (commit services config attempts attempt message run).1 ≡ gives tt
      → has_committed (commit services config attempts attempt message run).0.trace ≡ true
  unfolding commit has_committed
  commit-committed zero attempt message run e = absurd (ground arith)
  commit-committed (suc left) attempt message run e =
      elim (Bool-cases (services.commit message run.world).1) [
        | inl done ↦ rw (commit, done) refl
        | inr lost ↦ elim (Bool-cases (left == 0)) [
          | inl last ↦
              rw (commit, lost, last)
                (commit-committed left (suc attempt) message _ (rw (commit, lost, last) at e))
          | inr more ↦
              rw (commit, lost, more)
                (commit-committed left (suc attempt) message _ (rw (commit, lost, more) at e))
        ]
      ]
