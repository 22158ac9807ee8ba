-- ===== src/CircuitBreaker/Counters.antt =====
-- What holds of the breaker's counters after every history of calls.
use notification_system.Base.{
  ℕ, ◌+◌, ◌*◌, ◌≤◌, List, [], ◌∷◌, ◌≡◌, refl, arith, length, filter, Bool, true, false,
}
use notification_system.CircuitBreaker.{
  CircuitBreaker, closed, second, Call, allows, succeeds, fails, new, step, run,
}

-- The configuration is that of `New`, and every recorded outcome is a failure or a success.
pub record Inv (cb : CircuitBreaker) : Type 0 where
  pub counted : cb.failures + cb.successes ≡ cb.total
  pub half : (cb.threshold_num ≡ 1) × (cb.threshold_den ≡ 2)
  pub samples : cb.min_samples ≡ 10
  pub timeout : cb.timeout ≡ 30 * second
  pub window : cb.window ≡ 60 * second

pub new-Inv : (now : ℕ) → Inv (new now)
unfolding new
new-Inv now = ground arith

pub step-Inv : (cb : CircuitBreaker) (c : ℕ × Call) → Inv cb → Inv (step cb c)
unfolding step
step-Inv cb (now, allows) v = ground arith
step-Inv cb (now, succeeds) v = ground arith
step-Inv cb (now, fails) v = ground arith

-- Every history of calls keeps the invariant: failures and successes add up to the total, and the
-- configuration stays that of `New`.
pub run-Inv : (cb : CircuitBreaker) (cs : List (ℕ × Call)) → Inv cb → Inv (run cb cs)
unfolding run
run-Inv cb [] v = v
run-Inv cb (c ∷ cs) v = run-Inv (step cb c) cs (step-Inv cb c v)

abbrev pub is_failure : ℕ × Call → Bool
is_failure (_, fails) = true
is_failure (_, succeeds) = false
is_failure (_, allows) = false

abbrev pub failures_in : List (ℕ × Call) → ℕ
failures_in cs = length (filter is_failure cs)

step_few :
    (cb : CircuitBreaker) (c : ℕ × Call) (cs : List (ℕ × Call))
    → Inv cb
    → cb.state ≡ closed
    → cb.failures + failures_in (c ∷ cs) ≤ 5
    → ((step cb c).state ≡ closed) × ((step cb c).failures + failures_in cs ≤ 5)
unfolding step
step_few cb (now, allows) cs v e h = ground arith
step_few cb (now, succeeds) cs v e h = ground arith
step_few cb (now, fails) cs v e h = ground arith

run_few :
    (cb : CircuitBreaker) (cs : List (ℕ × Call))
    → Inv cb
    → cb.state ≡ closed
    → cb.failures + failures_in cs ≤ 5
    → (run cb cs).state ≡ closed
unfolding run
run_few cb [] v e h = e
run_few cb (c ∷ cs) v e h =
    let (still, fewer) = step_few cb c cs v e h in
    run_few (step cb c) cs (step-Inv cb c v) still fewer

-- Whatever the order and the times of the calls, a new breaker is still closed after any history
-- with at most five failures.
pub opened_needs_failures :
    (now : ℕ) (cs : List (ℕ × Call)) → failures_in cs ≤ 5 → (run (new now) cs).state ≡ closed
unfolding new
opened_needs_failures now cs h = run_few (new now) cs (new-Inv now) refl (omega arith)
