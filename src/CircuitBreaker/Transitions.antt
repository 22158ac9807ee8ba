-- ===== src/CircuitBreaker/Transitions.antt =====
-- The breaker's state machine: which transitions a call can make, and exactly when it makes them.
use notification_system.Base.{ℕ, suc, ◌-◌, ◌*◌, ◌≤◌, ◌<◌, ◌≡◌, ◌↔◌, ◌⊎◌, arith, true}
use notification_system.CircuitBreaker.{
  CircuitBreaker, State, closed, opened, half_open, second, Call, allows, succeeds, fails, allow,
  record_failure, step,
}
use notification_system.CircuitBreaker.Counters.{Inv}

infix 40 ◌⟶◌
pub data ◌⟶◌ : State → State → Type 0 where
  stay : {s : State} → s ⟶ s
  trip : closed ⟶ opened
  probe : opened ⟶ half_open
  recover : half_open ⟶ closed
  relapse : half_open ⟶ opened

-- A call keeps the state or follows one of the edges closed to open, open to half-open, half-open
-- to closed and half-open to open.
pub step-⟶ : (cb : CircuitBreaker) (c : ℕ × Call) → cb.state ⟶ (step cb c).state
unfolding step
step-⟶ cb (now, allows) = grind (arith, stay, probe)
step-⟶ cb (now, succeeds) = grind (arith, stay, recover)
step-⟶ cb (now, fails) = grind (arith, stay, trip, relapse)

-- In a breaker with the configuration of `New`, a failure opens the closed breaker exactly when,
-- with it counted, there are ten outcomes or more and more than half of them are failures.
pub record_failure-trips_iff :
    (now : ℕ) (cb : CircuitBreaker)
    → Inv cb
    → cb.state ≡ closed
    → ((record_failure now cb).state ≡ opened)
      ↔ ((10 ≤ suc cb.total) × (suc cb.total < 2 * suc cb.failures))
unfolding record_failure
record_failure-trips_iff now cb v e = ground arith

-- In a breaker with the configuration of `New`, `Allow` answers yes exactly when it is closed, or
-- open for more than 30 seconds since the last failure; the latter makes it half-open, and nothing
-- else changes the state.
pub allow_iff :
    (now : ℕ) (cb : CircuitBreaker)
    → Inv cb
    → (((allow now cb).1 ≡ true)
        ↔ ((cb.state ≡ closed) ⊎ ((cb.state ≡ opened) × (30 * second < now - cb.last_failure))))
      × (((allow now cb).0.state ≡ cb.state)
          ⊎ ((cb.state ≡ opened)
              × ((allow now cb).0.state ≡ half_open)
              × (30 * second < now - cb.last_failure)))
unfolding allow
allow_iff now cb v = ground arith
