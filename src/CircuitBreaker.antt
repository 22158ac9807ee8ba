-- ===== src/CircuitBreaker.antt =====
-- internal/circuitbreaker/circuitbreaker.go. Each method holds the mutex throughout, so it is one
-- step; the clock reading that it makes is its argument `now`, in nanoseconds. The threshold 0.5 is
-- the fraction 1/2, and `failures / total > 0.5` is compared without the division, which is exact
-- for totals below 2^53.
pub mod Counters
pub mod Transitions
pub mod Recovery
use notification_system.Base.{
  ℕ, suc, ◌+◌, ◌-◌, ◌*◌, String, List, [], ◌∷◌, Bool, true, false, ◌&&◌, ltb, leb, if◌then◌else◌,
}

-- `open` is a word of the language, so the state `Open` is `opened`.
pub data State : Type 0 where
  closed opened half_open : State

-- `String`; no value of the model is the default's.
unfoldable pub state_string : State → String
state_string closed = "closed"
state_string opened = "open"
state_string half_open = "half-open"

pub record CircuitBreaker : Type 0 where
  pub state : State
  pub failures : ℕ
  pub successes : ℕ
  pub total : ℕ
  pub last_failure : ℕ
  pub threshold_num : ℕ
  pub threshold_den : ℕ
  pub min_samples : ℕ
  pub timeout : ℕ
  pub window_start : ℕ
  pub window : ℕ

abbrev pub second : ℕ
second = 1000000000

-- `New`. The zero time of `lastFailure` is never read: a breaker opens only by a failure.
unfoldable pub new : ℕ → CircuitBreaker
new now = record {
  state = closed;
  failures = 0;
  successes = 0;
  total = 0;
  last_failure = 0;
  threshold_num = 1;
  threshold_den = 2;
  min_samples = 10;
  timeout = 30 * second;
  window_start = now;
  window = 60 * second;
}

unfoldable pub reset : ℕ → CircuitBreaker → CircuitBreaker
reset now cb = record cb { failures = 0; successes = 0; total = 0; window_start = now }

unfoldable pub reset_window_if_expired : ℕ → CircuitBreaker → CircuitBreaker
reset_window_if_expired now cb = if ltb cb.window (now - cb.window_start) then reset now cb else cb

-- The `switch` of `Allow`.
allow_in : State → ℕ → CircuitBreaker → CircuitBreaker × Bool
allow_in closed now cb = (cb, true)
allow_in opened now cb =
    if ltb cb.timeout (now - cb.last_failure)
    then (record cb { state = half_open }, true)
    else (cb, false)
allow_in half_open now cb = (cb, false)

unfoldable pub allow : ℕ → CircuitBreaker → CircuitBreaker × Bool
unfolding allow_in reset_window_if_expired reset
allow now cb = let cb' = reset_window_if_expired now cb in allow_in cb'.state now cb'

succeed_in : State → ℕ → CircuitBreaker → CircuitBreaker
succeed_in half_open now cb = reset now (record cb { state = closed })
succeed_in closed now cb = cb
succeed_in opened now cb = cb

unfoldable pub record_success : ℕ → CircuitBreaker → CircuitBreaker
unfolding succeed_in reset
record_success now cb =
    succeed_in cb.state now (record cb { successes = suc cb.successes; total = suc cb.total })

-- The failure rate is above the threshold, among enough samples.
abbrev pub too_many_failures : CircuitBreaker → Bool
too_many_failures cb =
    leb cb.min_samples cb.total
    && ltb (cb.threshold_num * cb.total) (cb.failures * cb.threshold_den)

fail_in : State → CircuitBreaker → CircuitBreaker
fail_in half_open cb = record cb { state = opened }
fail_in closed cb = if too_many_failures cb then record cb { state = opened } else cb
fail_in opened cb = cb

unfoldable pub record_failure : ℕ → CircuitBreaker → CircuitBreaker
unfolding fail_in
record_failure now cb =
    fail_in cb.state
      (record cb { failures = suc cb.failures; total = suc cb.total; last_failure = now })

-- The calls that the workers of a channel make, in the order in which they take the mutex.
pub data Call : Type 0 where
  allows succeeds fails : Call

unfoldable pub step : CircuitBreaker → ℕ × Call → CircuitBreaker
unfolding allow record_success record_failure
step cb (now, allows) = (allow now cb).0
step cb (now, succeeds) = record_success now cb
step cb (now, fails) = record_failure now cb

unfoldable pub run : CircuitBreaker → List (ℕ × Call) → CircuitBreaker
run cb [] = cb
run cb (c ∷ cs) = run (step cb c) cs
