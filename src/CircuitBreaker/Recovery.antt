-- ===== src/CircuitBreaker/Recovery.antt =====
-- The half-open state: how it is left, and that asking alone never leaves it.
use notification_system.CircuitBreaker.Counters.{Inv}
use notification_system.Base.{
  ◌⊎◌, inl, inr, ◌*◌, ℕ, suc, ◌+◌, ◌≤◌, List, [], ◌∷◌, ◌≡◌, refl, arith, true, false, if◌then◌else◌,
}
use notification_system.CircuitBreaker.{
  CircuitBreaker, second, closed, opened, half_open, allow, record_success, record_failure,
}

-- How many of the calls of `Allow` at these times answer yes, and the breaker after them.
pub ask : CircuitBreaker → List ℕ → CircuitBreaker × ℕ
ask cb [] = (cb, 0)
ask cb (now ∷ times) =
    let (cb', allowed) = allow now cb in
    let (last, n) = ask cb' times in (last, if allowed then suc n else n)

pub allow_half_open :
    (now : ℕ) (cb : CircuitBreaker)
    → cb.state ≡ half_open
    → ((allow now cb).0.state ≡ half_open) × ((allow now cb).1 ≡ false)
unfolding allow
allow_half_open now cb e = ground arith

-- A half-open breaker refuses every further request, at whatever times they come, and stays
-- half-open: `Allow` alone, however much time passes, never leads out of the state.
pub half_open_stuck :
    (cb : CircuitBreaker) (times : List ℕ)
    → cb.state ≡ half_open
    → ((ask cb times).0.state ≡ half_open) × ((ask cb times).1 ≡ 0)
unfolding ask
half_open_stuck cb [] e = (e, refl)
half_open_stuck cb (now ∷ times) e =
    let (still, refused) = allow_half_open now cb e in
    ground (arith, half_open_stuck (allow now cb).0 times still)

pub allow_opened :
    (now : ℕ) (cb : CircuitBreaker)
    → cb.state ≡ opened
    → (((allow now cb).0.state ≡ opened) × ((allow now cb).1 ≡ false))
      ⊎ (((allow now cb).0.state ≡ half_open) × ((allow now cb).1 ≡ true))
unfolding allow
allow_opened now cb e = ground arith

-- An open breaker lets one request through at most, until an outcome is recorded.
pub opened_one_probe :
    (cb : CircuitBreaker) (times : List ℕ) → cb.state ≡ opened → (ask cb times).1 ≤ 1
unfolding ask
opened_one_probe cb [] e = omega arith
opened_one_probe cb (now ∷ times) e = elim (allow_opened now cb e) [
  | inl (still, refused) ↦ ground (arith, opened_one_probe (allow now cb).0 times still)
  | inr (half, allowed) ↦ ground (arith, half_open_stuck (allow now cb).0 times half)
]

-- The outcome of the probe decides, in a half-open breaker with the configuration of `New`: a
-- success closes it with its counters at 0, and the next request is let through; a failure opens it
-- again, and a request up to 30 seconds later is refused.
pub probe_decides :
    (cb : CircuitBreaker) (now later : ℕ)
    → Inv cb
    → cb.state ≡ half_open
    → later ≤ now + 30 * second
    → ((record_success now cb).state ≡ closed)
      × ((record_success now cb).total ≡ 0)
      × ((allow later (record_success now cb)).1 ≡ true)
      × ((record_failure now cb).state ≡ opened)
      × ((allow later (record_failure now cb)).1 ≡ false)
unfolding allow record_success record_failure
probe_decides cb now later v e soon = ground arith
