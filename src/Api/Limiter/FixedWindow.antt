-- ===== src/Api/Limiter/FixedWindow.antt =====
-- How many checks of src/RedisFixedWindowRateLimiter.cpp are allowed within a window.
use hao_short_link.Prelude.{
  All, All-map, Bool, Bool-cases, List, Option, [], ap, arith, bytes_eq, false, if◌then◌else◌, inl,
  inr, length, map, min, nat_eq, none, refl, some, suc, true, ℕ, ◌+◌, ◌-◌, ◌<◌, ◌∙◌, ◌∷◌, ◌≡◌, ◌≤◌,
}
use hao_short_link.Prelude.Int.{int_eq, pos_part}
use hao_short_link.Prelude.Map.{pair_eq}
use hao_short_link.Api.Limiter.{
  LimitStatus, LimiterConfig, Stage, Window, check, deadline_of, increment, live_window,
  loses_reply, run_script, script_answer, stops_before,
}

abbrev pub is_allowed : LimitStatus → Bool
is_allowed LimitStatus.allowed = true
is_allowed LimitStatus.limited = false
is_allowed LimitStatus.error = false

-- The checks that answer that the request is allowed, of checks with the step that each fails at and its time.
abbrev pub count_allowed : LimiterConfig → Option Window → List (Stage × ℕ) → ℕ
count_allowed config stored [] = 0
count_allowed config stored ((stage, now) ∷ rest) =
    let (stored₁, result) = check config stage now stored in
    (if is_allowed result.status then 1 else 0) + count_allowed config stored₁ rest

-- A counter that lasts until `end` at least.
abbrev Lasts : ℕ → Window → Type 0
Lasts end w = (1 ≤ w.current) × ((d : ℕ) × (w.deadline ≡ some d) × (end ≤ d))

abbrev pub Within : ℕ → ℕ → Stage × ℕ → Type 0
Within start end (stage, now) = (start ≤ now) × (now < end)

live_window-lasts :
    (w : Window) (d now : ℕ) → w.deadline ≡ some d → now < d → live_window (some w) now ≡ some w
unfolding live_window
live_window-lasts w d now e h = rw e (ground arith)

script_live :
    (config : LimiterConfig) (w : Window) (d now : ℕ)
    → 1 ≤ w.current
    → w.deadline ≡ some d
    → now < d
    → run_script config (some w) now ≡ script_answer config now (suc w.current) (some d)
unfolding run_script increment deadline_of
script_live config w d now one e h =
    ap
      (λ (o : Option Window).
        script_answer config now (increment o).current (deadline_of config now (increment o)))
      (live_window-lasts w d now e h)
    ∙ ap (script_answer config now (suc w.current)) (ground arith ∙ e)

script_new :
    (config : LimiterConfig) (stored : Option Window) (now : ℕ)
    → live_window stored now ≡ none
    → run_script config stored now ≡ script_answer config now 1 (some (now + config.window_seconds))
unfolding run_script increment deadline_of
script_new config stored now e =
    ap
      (λ (o : Option Window).
        script_answer config now (increment o).current (deadline_of config now (increment o)))
      e

-- One more check, by whether the script ran, and whether its answer came.
count_step :
    (config : LimiterConfig) (stage : Stage) (now : ℕ) (stored : Option Window)
    (rest : List (Stage × ℕ)) (n : ℕ) (w : Window) (good_for : Bool) (ttl : ℕ)
    → run_script config stored now ≡ (w, good_for, ttl)
    → count_allowed config stored rest ≤ n
    → count_allowed config (some w) rest ≤ n
    → (good_for ≡ true → suc (count_allowed config (some w) rest) ≤ n)
    → count_allowed config stored ((stage, now) ∷ rest) ≤ n
unfolding check
count_step config stage now stored rest n w good_for ttl e same ran more =
    elim (Bool-cases (stops_before config stage)) [
      | inl stops ↦ rw stops (omega (arith, same))
      | inr begins ↦ elim (Bool-cases (loses_reply stage)) [
        | inl loses ↦ rw (begins, loses, e) (omega (arith, ran))
        | inr comes ↦ elim (Bool-cases good_for) [
          | inl good ↦ rw (begins, comes, e, good) (omega (arith, more good))
          | inr bad ↦ rw (begins, comes, e, bad) (omega (arith, ran))
        ]
      ]
    ]

count_live :
    (config : LimiterConfig) (w : Window) (d : ℕ) (checks : List (Stage × ℕ))
    → 1 ≤ w.current
    → w.deadline ≡ some d
    → All (λ c. c.1 < d) checks
    → count_allowed config (some w) checks ≤ pos_part config.requests - w.current
count_live config w d [] one e h = omega arith
count_live config w d ((stage, now) ∷ rest) one e (early, h) =
    let w₁ : Window = record { current = suc w.current; deadline = some d } in
    let ran = count_live config w₁ d rest (omega arith) refl h in
    count_step config stage now (some w) rest _ w₁ _ _ (script_live config w d now one e early)
      (count_live config w d rest one e h) (omega (arith, ran)) (λ good. ground arith)

count_new :
    (config : LimiterConfig) (stored : Option Window) (start : ℕ) (checks : List (Stage × ℕ))
    → ((now : ℕ) → start ≤ now → live_window stored now ≡ none)
    → All (Within start (start + config.window_seconds)) checks
    → count_allowed config stored checks ≤ pos_part config.requests
count_new config stored start [] gone h = omega arith
count_new config stored start ((stage, now) ∷ rest) gone ((late, early), h) =
    let w₁ : Window = record { current = 1; deadline = some (now + config.window_seconds) } in
    let ran =
      count_live config w₁ (now + config.window_seconds) rest (omega arith) refl
        (All-map _ _ (λ c b. omega (arith, b.1)) rest h) in
    count_step config stage now stored rest _ w₁ _ _ (script_new config stored now (gone now late))
      (count_new config stored start rest gone h) (omega (arith, ran)) (λ good. ground arith)

-- A check that does not fail.
count_sound :
    (config : LimiterConfig) (now : ℕ) (stored : Option Window) (rest : List (Stage × ℕ))
    (w : Window) (good_for : Bool) (ttl : ℕ)
    → run_script config stored now ≡ (w, good_for, ttl)
    → count_allowed config stored ((Stage.nowhere, now) ∷ rest)
      ≡ (if good_for then 1 else 0) + count_allowed config (some w) rest
unfolding check
count_sound config now stored rest w good_for ttl e = elim (Bool-cases good_for) [
  | inl good ↦ rw (e, good) refl
  | inr bad ↦ rw (e, bad) refl
]

abbrev pub unfailing : List ℕ → List (Stage × ℕ)
unfailing = map (λ now. (Stage.nowhere, now))

count_unfailing :
    (config : LimiterConfig) (w : Window) (d : ℕ) (times : List ℕ)
    → 1 ≤ w.current
    → w.deadline ≡ some d
    → All (λ now. now < d) times
    → count_allowed config (some w) (unfailing times)
      ≡ min (length times) (pos_part config.requests - w.current)
count_unfailing config w d [] one e h = ground arith
count_unfailing config w d (now ∷ rest) one e (early, h) =
    let w₁ : Window = record { current = suc w.current; deadline = some d } in
    let ran = count_unfailing config w₁ d rest (omega arith) refl h in
    count_sound config now (some w) (unfailing rest) w₁ _ _ (script_live config w d now one e early)
    ∙ ground (arith, ran)

-- From no counter, or one that has ended, the checks within the time of a window answer at most the
-- configured number of times that a request is allowed, and, if none fails, a first check and those
-- within the window that it starts answer so exactly that number of times, or always if they are fewer.
pub check-window :
    (config : LimiterConfig) (stored : Option Window) (start : ℕ)
    → ((now : ℕ) → start ≤ now → live_window stored now ≡ none)
    → ((checks : List (Stage × ℕ))
        → All (Within start (start + config.window_seconds)) checks
        → count_allowed config stored checks ≤ pos_part config.requests)
      × ((now : ℕ) (times : List ℕ)
          → start ≤ now
          → All (λ time. (now ≤ time) × (time < now + config.window_seconds)) (now ∷ times)
          → count_allowed config stored (unfailing (now ∷ times))
            ≡ min (suc (length times)) (pos_part config.requests))
check-window config stored start gone = (
  (λ checks h. count_new config stored start checks gone h),
  λ now times late (_, h).
      let w₁ : Window = record { current = 1; deadline = some (now + config.window_seconds) } in
      let ran =
        count_unfailing config w₁ (now + config.window_seconds) times (omega arith) refl
          (All-map _ _ (λ c b. b.1) times h) in
      count_sound config now stored (unfailing times) w₁ _ _
        (script_new config stored now (gone now late))
      ∙ ground (arith, ran),
)
