-- ===== src/RateLimiter/Rate.antt =====
-- How many requests the bucket lets through.
use notification_system.Base.{
  min, ltb, leb, ℕ, suc, ◌+◌, ◌-◌, ◌*◌, ◌≤◌, ◌<◌, Option, none, some, List, [], ◌∷◌, true, ◌≡◌,
  refl, ◌↔◌, arith, if◌then◌else◌,
}
use notification_system.Base.Int.{pos, ◌≤ℤ◌, ◌+ℤ◌}
use notification_system.World.{Bucket}
use notification_system.RateLimiter.Bucket.{
  token, time_to_live, stored, live, available, refill, run_script,
}

available_capped :
    (rate now : ℕ) (store : Option Bucket) → available rate now store ≤ℤ pos (rate * token)
unfolding available
available_capped rate now none = ground arith
available_capped rate now (some b) = ground arith

-- The script never finds more than `rate` tokens, and lets a request through exactly when it finds
-- a whole one.
pub run_script_iff :
    (rate now server : ℕ) (store : Option Bucket)
    → (available rate now (live server store) ≤ℤ pos (rate * token))
      × (((run_script rate now server store).0 ≡ true)
          ↔ (pos token ≤ℤ available rate now (live server store)))
unfolding run_script
run_script_iff rate now server store = (available_capped rate now (live server store), ground arith)

-- Calls at these times, by clients whose clock is the server's: how many are let through, and the
-- time of the last one.
pub requests : ℕ → Option Bucket → List ℕ → ℕ
requests rate store [] = 0
requests rate store (now ∷ times) =
    let (allowed, store') = run_script rate now now store in
    let n = requests rate store' times in if allowed then suc n else n

abbrev pub Ascending : ℕ → List ℕ → Type 0
Ascending t [] = Unit
Ascending t (u ∷ us) = (t ≤ u) × Ascending u us

abbrev pub last_of : ℕ → List ℕ → ℕ
last_of t [] = t
last_of t (u ∷ us) = last_of u us

-- A bucket at rest: whole tokens left, and its life counted from its last use.
record IsSound (b : Bucket) (k : ℕ) : Type 0 where
  tokens : b.tokens ≡ pos k
  expires : b.expires ≡ b.last + time_to_live

mul_mono : (a b rate : ℕ) → a ≤ b → a * rate ≤ b * rate
mul_mono a b rate h = grind arith

mul_far : (a b rate : ℕ) → a + time_to_live < b → a * rate + time_to_live * rate ≤ b * rate
mul_far a b rate h = omega (arith, mul_mono (a + time_to_live) b rate (omega arith))

-- The millionths that a sound bucket offers at `now`.
offered : ℕ → ℕ → ℕ → ℕ → ℕ
offered rate k last now =
    if ltb (last + time_to_live) now
    then rate * token
    else min (rate * token) (k + (now * rate - last * rate))

available_sound :
    (rate k now : ℕ) (b : Bucket)
    → IsSound b k
    → b.last ≤ now
    → available rate now (live now (some b)) ≡ pos (offered rate k b.last now)
unfolding available offered ◌+ℤ◌ refill
available_sound rate k now b s h = ground (arith, mul_mono b.last now rate h)

offered_bound :
    (rate k last now : ℕ) → last ≤ now → offered rate k last now + last * rate ≤ k + now * rate
unfolding offered
offered_bound rate k last now h = ground (arith, mul_mono last now rate h, mul_far last now rate)

-- What the script leaves of an offer.
pub left_of : ℕ → ℕ
left_of n = if leb token n then n - token else n

run_script_sound :
    (rate k now : ℕ) (b : Bucket)
    → IsSound b k
    → b.last ≤ now
    → run_script rate now now (some b) ≡ (
      leb token (offered rate k b.last now),
      stored (pos (left_of (offered rate k b.last now))) now now,
    )
unfolding run_script left_of ◌+ℤ◌
run_script_sound rate k now b s h = rw (available_sound rate k now b s h) (ground arith)

pub run_script_fresh :
    (rate now : ℕ)
    → run_script rate now now none
      ≡ (leb token (rate * token), stored (pos (left_of (rate * token))) now now)
unfolding run_script left_of available refill ◌+ℤ◌
run_script_fresh rate now = ground arith

spend : (n r : ℕ) → token * (if leb token n then suc r else r) + left_of n ≡ n + token * r
unfolding left_of
spend n r = ground arith

requests_from :
    (rate k last : ℕ) (times : List ℕ)
    → Ascending last times
    → token * requests rate (stored (pos k) last last) times + last * rate
      ≤ k + last_of last times * rate
unfolding requests
requests_from rate k last [] a = omega arith
requests_from rate k last (now ∷ times) (h, a) =
    let b : Bucket = record { tokens = pos k; last = last; expires = last + time_to_live } in
    let n = offered rate k last now in
    rw (run_script_sound rate k now b (record { tokens = refl; expires = refl }) h) (
      omega (
        arith,
        spend n (requests rate (stored (pos (left_of n)) now now) times),
        offered_bound rate k last now h,
        requests_from rate (left_of n) now times a,
      ))

-- A new bucket lets at most `rate` requests through at once, and `rate` for each second after: over
-- calls whose times do not decrease, by clients whose clock is the server's, the number let through
-- is at most `rate + rate * (last - first)`, the times in seconds (here both sides are in
-- millionths). The key's expiry is taken into account.
pub requests_bounded :
    (rate now : ℕ) (times : List ℕ)
    → Ascending now times
    → token * requests rate none (now ∷ times) + now * rate
      ≤ token * rate + last_of now times * rate
unfolding requests
requests_bounded rate now times a = rw (run_script_fresh rate now) (
    omega (
      arith,
      spend (rate * token) (requests rate (stored (pos (left_of (rate * token))) now now) times),
      requests_from rate (left_of (rate * token)) now times a,
    ))
