-- ===== src/Worker/Backoff.antt =====
-- internal/worker/processor.go, `calculateBackoff`. A `time.Duration` is an int64 number of
-- nanoseconds, held as its bit pattern; `signed` is the number that it stands for. The random jitter
-- (`rand.Int63n`) is an argument.
pub mod Bounds
use notification_system.Base.{ℕ, ◌+◌, ◌*◌, ◌^◌, ◌%◌, ◌-◌, ltb, if◌then◌else◌}
use notification_system.Base.Int.{ℤ, pos, negsuc, ltb_ℤ}

abbrev pub word : ℕ
word = 18446744073709551616

abbrev pub signed : ℕ → ℤ
signed x = if ltb x 9223372036854775808 then pos x else negsuc (word - 1 - x)

abbrev pub base : ℕ
base = 1000000000

abbrev pub max_backoff : ℕ
max_backoff = 30 * base

abbrev pub max_jitter : ℕ
max_jitter = 500000000

-- `1 << uint(attempt)` at type int64: no bit is left from 64 on.
shift_one : ℕ → ℕ
shift_one attempt = if ltb attempt 64 then 2 ^ attempt else 0

unfoldable pub calculate_backoff : ℕ → ℕ → ℤ
unfolding shift_one
calculate_backoff attempt jitter =
    let backoff = (base * shift_one attempt) % word in
    let capped = if ltb_ℤ (signed max_backoff) (signed backoff) then max_backoff else backoff in
    signed ((capped + jitter) % word)
