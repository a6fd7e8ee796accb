-- ===== src/Api/Links/Window.antt =====
-- How many creations the rate limit lets pass within a window: RedisFixedWindowRateLimiter.cpp behind
-- `handleCreate` of src/ShortLinkHttpApi.cpp.
use hao_short_link.Prelude.{
  All, Bool, Bool-cases, List, Option, [], arith, bytes_eq, false, if◌then◌else◌, inl, inr, length,
  min, nat_eq, none, not, refl, some, suc, true, ℕ, ◌+◌, ◌<◌, ◌∙◌, ◌∷◌, ◌≡◌, ◌≤◌,
}
use hao_short_link.Prelude.Int.{int_eq, pos_part}
use hao_short_link.Prelude.Map.{pair_eq}
use hao_short_link.Api.Limiter.{LimiterConfig, Stage, Window, check, live_window, run_script}
use hao_short_link.Api.Limiter.FixedWindow.{
  Within, check-window, count_allowed, is_allowed, unfailing,
}
use hao_short_link.Api.Links.{limit_create}
use hao_short_link.Api.Links.Limited.{is_limited, limit_create-limited}
use hao_short_link.Http.Response.{HttpResponse}
use hao_short_link.ShortLink.Metrics.{ShortLinkMetrics}

-- The creations that go on, of checks with the step that each fails at and its time.
abbrev pub count_passing :
    LimiterConfig → ShortLinkMetrics → HttpResponse → Option Window → List (Stage × ℕ) → ℕ
count_passing config m r stored [] = 0
count_passing config m r stored ((stage, now) ∷ rest) =
    let (stored₁, result) = check config stage now stored in
    let (m₁, r₁, goes_on) = limit_create (some result) m r in
    (if goes_on then 1 else 0) + count_passing config m₁ r stored₁ rest

abbrev pub fails : Stage → Bool
fails Stage.nowhere = false
fails Stage.connect = true
fails Stage.set_timeout = true
fails Stage.select = true
fails Stage.eval = true
fails Stage.eval_reply = true

abbrev pub count_failing : List (Stage × ℕ) → ℕ
count_failing [] = 0
count_failing ((stage, now) ∷ rest) = (if fails stage then 1 else 0) + count_failing rest

passes-allowed :
    (config : LimiterConfig) (now : ℕ) (stored : Option Window)
    → not (is_limited (some (check config Stage.nowhere now stored).1))
      ≡ is_allowed (check config Stage.nowhere now stored).1.status
unfolding check
passes-allowed config now stored = elim (Bool-cases (run_script config stored now).1) [
  | inl good ↦ rw good refl
  | inr full ↦ rw full refl
]

one-le : (b c : Bool) → (if b then 1 else 0) ≤ (if c then 1 else 0) + 1
one-le b c = ground arith

passes-le :
    (config : LimiterConfig) (stage : Stage) (now : ℕ) (stored : Option Window)
    → let result = (check config stage now stored).1 in
      (if not (is_limited (some result)) then 1 else 0)
      ≤ (if is_allowed result.status then 1 else 0) + (if fails stage then 1 else 0)
passes-le config Stage.nowhere now stored = ground (arith, passes-allowed config now stored)
passes-le config Stage.connect now stored = one-le _ _
passes-le config Stage.set_timeout now stored = one-le _ _
passes-le config Stage.select now stored = one-le _ _
passes-le config Stage.eval now stored = one-le _ _
passes-le config Stage.eval_reply now stored = one-le _ _

count_passing-le :
    (config : LimiterConfig) (m : ShortLinkMetrics) (r : HttpResponse) (stored : Option Window)
    (checks : List (Stage × ℕ))
    → count_passing config m r stored checks
      ≤ count_allowed config stored checks + count_failing checks
count_passing-le config m r stored [] = omega arith
count_passing-le config m r stored ((stage, now) ∷ rest) =
    let (stored₁, result) = check config stage now stored in
    let limited = limit_create (some result) m r in
    rw ((limit_create-limited (some result) m r).0) (
      omega (
        arith,
        passes-le config stage now stored,
        count_passing-le config limited.0 r stored₁ rest,
      ))

count_passing-unfailing :
    (config : LimiterConfig) (m : ShortLinkMetrics) (r : HttpResponse) (stored : Option Window)
    (times : List ℕ)
    → count_passing config m r stored (unfailing times)
      ≡ count_allowed config stored (unfailing times)
count_passing-unfailing config m r stored [] = refl
count_passing-unfailing config m r stored (now ∷ rest) =
    let (stored₁, result) = check config Stage.nowhere now stored in
    let limited = limit_create (some result) m r in
    rw
      (
        (limit_create-limited (some result) m r).0,
        passes-allowed config now stored,
        count_passing-unfailing config limited.0 r stored₁ rest,
      )
      refl

-- From no counter, or one that has ended, and within the time of a window, the rate limit lets pass at
-- most the configured number of creations and, beyond it, as many as there are checks of which a step
-- fails, whether Redis ran their script or not. If none fails, a first check and those within the
-- window that it starts let pass exactly that number, or all if they are fewer.
pub limit_create-window :
    (config : LimiterConfig) (stored : Option Window) (start : ℕ) (m : ShortLinkMetrics)
    (r : HttpResponse)
    → ((now : ℕ) → start ≤ now → live_window stored now ≡ none)
    → ((checks : List (Stage × ℕ))
        → All (Within start (start + config.window_seconds)) checks
        → count_passing config m r stored checks ≤ pos_part config.requests + count_failing checks)
      × ((now : ℕ) (times : List ℕ)
          → start ≤ now
          → All (λ time. (now ≤ time) × (time < now + config.window_seconds)) (now ∷ times)
          → count_passing config m r stored (unfailing (now ∷ times))
            ≡ min (suc (length times)) (pos_part config.requests))
limit_create-window config stored start m r gone = (
  (λ checks h. omega (
    arith,
    count_passing-le config m r stored checks,
    (check-window config stored start gone).0 checks h,
  )),
  λ now times late h.
      count_passing-unfailing config m r stored (now ∷ times)
      ∙ (check-window config stored start gone).1 now times late h,
)
