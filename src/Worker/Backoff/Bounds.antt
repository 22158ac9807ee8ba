-- ===== src/Worker/Backoff/Bounds.antt =====
-- The delays that `calculate_backoff` yields.
use notification_system.Base.{
  ◌%◌, ◌-◌, holds_below, of_holds_below, ℕ, ◌+◌, ◌*◌, ◌^◌, ◌≤◌, ◌<◌, ◌≡◌, refl, arith, min, true,
  ltb, ◌==◌, ltb→lt, ==_iff,
}
use notification_system.Base.Int.{pos}
use notification_system.Worker.Backoff.{word, base, max_backoff, max_jitter, calculate_backoff}

-- The delay that is meant: 2^attempt seconds, at most 30, and the jitter.
abbrev pub intended : ℕ → ℕ → ℕ
intended attempt jitter = min (base * 2 ^ attempt) max_backoff + jitter

small_table : holds_below (λ n. ltb (base * 2 ^ n) 9223372036854775808) 34 ≡ true
unfolding holds_below
small_table = refl

small : (attempt : ℕ) → attempt < 34 → base * 2 ^ attempt < 9223372036854775808
small attempt h =
    ltb→lt _ _
      (of_holds_below (λ n. ltb (base * 2 ^ n) 9223372036854775808) 34 attempt small_table h)

-- For the first 34 attempts the delay is the intended one, a second doubled with each attempt and
-- at most 30 seconds, plus the jitter of less than half a second.
pub calculate_backoff-intended :
    (attempt jitter : ℕ)
    → attempt < 34
    → jitter < max_jitter
    → calculate_backoff attempt jitter ≡ pos (intended attempt jitter)
unfolding calculate_backoff
calculate_backoff-intended attempt jitter h j = ground (arith, small attempt h)

wraps_table : holds_below (λ n. (base * 2 ^ (n + 55)) % word == 0) 9 ≡ true
unfolding holds_below
wraps_table = refl

sub-add : (a b : ℕ) → b ≤ a → a - b + b ≡ a
sub-add a b h = omega arith

wraps : (attempt : ℕ) → 54 < attempt → attempt < 64 → (base * 2 ^ attempt) % word ≡ 0
wraps attempt h k = rw (sub-add attempt 55 h) at (
    (==_iff _ _).0 (
      of_holds_below (λ n. (base * 2 ^ (n + 55)) % word == 0) 9 (attempt - 55) wraps_table
        (omega arith)))

-- From the 55th doubling on the multiplication has wrapped to 0, and only the jitter of less than
-- half a second is left.
pub calculate_backoff_overflow :
    (attempt jitter : ℕ)
    → 55 ≤ attempt
    → jitter < max_jitter
    → calculate_backoff attempt jitter ≡ pos jitter
unfolding calculate_backoff
calculate_backoff_overflow attempt jitter h j = ground (arith, wraps attempt)
