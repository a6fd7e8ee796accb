-- ===== src/Api/Limiter.antt =====
-- apps/shortlink_server: include/shortlink/RateLimiter.h, and src/RedisFixedWindowRateLimiter.cpp
-- with the script that it sends to Redis. The state is the counter under the key, if it is there;
-- time is the server's clock in seconds.
pub mod FixedWindow
use hao_short_link.Prelude.{
  Bool, Option, bytes_eq, false, if◌then◌else◌, leb, nat_eq, none, some, suc, true, ℕ, ◌+◌, ◌-◌,
  ◌==◌,
}
use hao_short_link.Prelude.Int.{int_eq, leb_ℤ, ltb_ℤ, pos, ℤ}
use hao_short_link.Prelude.Map.{pair_eq}
use hao_short_link.Access.Event.{to_int}
use hao_short_link.ShortLink.MySql.Table.{fits}
use hao_short_link.ShortLink.Record.{status_eq}

pub data LimitStatus : Type 0 where
  allowed limited error : LimitStatus

pub record LimitResult : Type 0 where
  pub status : LimitStatus
  pub retry_after_seconds : ℤ

pub record LimiterConfig : Type 0 where
  pub database : ℤ
  pub requests : ℤ
  pub window_seconds : ℕ

-- A counter, and when it ends, if it does.
pub record Window : Type 0 where
  pub current : ℕ
  pub deadline : Option ℕ

-- Redis drops a key whose time has come.
abbrev pub has_passed : Option ℕ → ℕ → Bool
has_passed none now = false
has_passed (some deadline) now = leb deadline now

unfoldable pub live_window : Option Window → ℕ → Option Window
live_window none now = none
live_window (some w) now = if has_passed w.deadline now then none else some w

-- INCR
unfoldable pub increment : Option Window → Window
increment none = record { current = 1; deadline = none }
increment (some w) = record w { current = suc w.current }

-- EXPIRE at the first increment, and the time that TTL then finds; EXPIRE takes a time that is not
-- zero.
unfoldable pub deadline_of : LimiterConfig → ℕ → Window → Option ℕ
deadline_of config now w = if w.current == 1 then some (now + config.window_seconds) else w.deadline

-- The counter behind the script, and its answer; a counter without an end gets one.
abbrev pub script_answer : LimiterConfig → ℕ → ℕ → Option ℕ → Window × Bool × ℕ
script_answer config now current none = (
  record { current = current; deadline = some (now + config.window_seconds) },
  leb_ℤ (pos current) config.requests,
  config.window_seconds,
)
script_answer config now current (some deadline) = (
  record { current = current; deadline = some deadline },
  leb_ℤ (pos current) config.requests,
  deadline - now,
)

unfoldable pub run_script : LimiterConfig → Option Window → ℕ → Window × Bool × ℕ
run_script config stored now =
    let w = increment (live_window stored now) in
    script_answer config now w.current (deadline_of config now w)

-- The step of a check that fails. An EVAL whose reply is lost may have been carried out.
pub data Stage : Type 0 where
  nowhere connect set_timeout select eval eval_reply : Stage

abbrev pub stops_before : LimiterConfig → Stage → Bool
stops_before config Stage.nowhere = false
stops_before config Stage.connect = true
stops_before config Stage.set_timeout = true
stops_before config Stage.select = ltb_ℤ (pos 0) config.database
stops_before config Stage.eval = true
stops_before config Stage.eval_reply = false

abbrev pub loses_reply : Stage → Bool
loses_reply Stage.nowhere = false
loses_reply Stage.connect = false
loses_reply Stage.set_timeout = false
loses_reply Stage.select = false
loses_reply Stage.eval = false
loses_reply Stage.eval_reply = true

abbrev failed : LimitResult
failed = record { status = LimitStatus.error; retry_after_seconds = pos 0 }

-- `std::max(1, static_cast<int>(ttl))`
unfoldable pub retry_after : ℕ → ℤ
retry_after ttl = let seconds = to_int (pos ttl) in if ltb_ℤ (pos 1) seconds then seconds else pos 1

unfoldable pub check : LimiterConfig → Stage → ℕ → Option Window → Option Window × LimitResult
check config stage now stored =
    let (w, fits, ttl) = run_script config stored now in
    if stops_before config stage
    then (stored, failed)
    else if loses_reply stage
    then (some w, failed)
    else (
      some w,
      record {
        status = if fits then LimitStatus.allowed else LimitStatus.limited;
        retry_after_seconds = retry_after ttl;
      },
    )
