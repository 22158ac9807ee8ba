-- ===== src/RateLimiter/Bucket.antt =====
-- The script, as one atomic step of Redis.
use notification_system.Base.{
  ℕ, ◌+◌, ◌-◌, ◌*◌, Option, none, some, Bool, true, false, ltb, if◌then◌else◌,
}
use notification_system.Base.Int.{ℤ, pos, negsuc, sub_ℕ, ◌+ℤ◌, leb_ℤ}
use notification_system.World.{Bucket}

-- One token, in millionths.
abbrev pub token : ℕ
token = 1000000

-- `EXPIRE key 2`.
abbrev pub time_to_live : ℕ
time_to_live = 2000000

-- `HMGET` finds nothing once the key has expired.
abbrev pub live : ℕ → Option Bucket → Option Bucket
live server none = none
live server (some b) = if ltb b.expires server then none else some b

abbrev pub min_ℤ : ℤ → ℤ → ℤ
min_ℤ a b = if leb_ℤ a b then a else b

-- `(now - last) * rate`; the clocks of two instances may differ, so it may be negative.
unfoldable pub refill : ℕ → ℕ → ℕ → ℤ
refill rate last now = sub_ℕ (now * rate) (last * rate)

-- The tokens that the script finds, capped at `rate`.
unfoldable pub available : ℕ → ℕ → Option Bucket → ℤ
unfolding refill
available rate now none = min_ℤ (pos (rate * token)) (pos (rate * token) +ℤ refill rate now now)
available rate now (some b) = min_ℤ (pos (rate * token)) (b.tokens +ℤ refill rate b.last now)

-- `HMSET` and `EXPIRE`.
abbrev pub stored : ℤ → ℕ → ℕ → Option Bucket
stored tokens now server =
    some (record { tokens = tokens; last = now; expires = server + time_to_live })

-- The script: the answer 1 or 0, and the hash that it leaves.
unfoldable pub run_script : ℕ → ℕ → ℕ → Option Bucket → Bool × Option Bucket
run_script rate now server store =
    let tokens = available rate now (live server store) in
    if leb_ℤ (pos token) tokens
    then (true, stored (tokens +ℤ negsuc (token - 1)) now server)
    else (false, stored tokens now server)
