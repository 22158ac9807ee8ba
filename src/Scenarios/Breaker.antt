-- ===== src/Scenarios/Breaker.antt =====
-- The theorems on the circuit breaker and on the rate limiter, at concrete inputs.
use notification_system.Base.{
  ℕ, suc, List, [], ◌∷◌, none, ◌≡◌, ◌↔◌, ◌⊎◌, refl, true, arith, ◌≤◌, ◌<◌, ◌*◌, ◌+◌, ◌-◌,
}
use notification_system.CircuitBreaker.{
  CircuitBreaker, closed, opened, half_open, second, new, allow, record_failure,
}
use notification_system.CircuitBreaker.Counters.{Inv, new-Inv}
use notification_system.CircuitBreaker.Transitions.{record_failure-trips_iff, allow_iff}
use notification_system.RateLimiter.Bucket.{token}
use notification_system.RateLimiter.Rate.{requests, last_of, requests_bounded}

new-closed : (new 0).state ≡ closed
unfolding new
new-closed = refl

record_failure-trips_iff_example :
    ((record_failure 20 (new 0)).state ≡ opened)
    ↔ ((10 ≤ suc (new 0).total) × (suc (new 0).total < 2 * suc (new 0).failures))
record_failure-trips_iff_example = record_failure-trips_iff 20 (new 0) (new-Inv 0) new-closed

-- A breaker that opened at 500 nanoseconds, and one that tries a request.
abbrev tripped : CircuitBreaker
tripped = record (new 0) { state = opened; failures = 10; total = 10; last_failure = 500 }

tripped-Inv : Inv tripped
unfolding new
tripped-Inv = ground arith

allow_iff_example :
    (((allow 900 tripped).1 ≡ true) ↔ (
      (tripped.state ≡ closed)
      ⊎ ((tripped.state ≡ opened) × (30 * second < 900 - tripped.last_failure))))
    × (((allow 900 tripped).0.state ≡ tripped.state)
        ⊎ ((tripped.state ≡ opened)
            × ((allow 900 tripped).0.state ≡ half_open)
            × (30 * second < 900 - tripped.last_failure)))
allow_iff_example = allow_iff 900 tripped tripped-Inv

abbrev times : List ℕ
times = 10 ∷ 20 ∷ 30 ∷ []

requests_bounded_example :
    token * requests 100 none (5 ∷ times) + 5 * 100 ≤ token * 100 + last_of 5 times * 100
requests_bounded_example =
    requests_bounded 100 5 times (omega arith, (omega arith, (omega arith, tt)))
