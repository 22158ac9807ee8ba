-- ===== src/RateLimiter/Wait.antt =====
-- `Allow` and the loop of `Wait`. Where several cases of the `select` are ready at once, Go picks
-- any; the model takes the context's, then the deadline's.
pub mod Keeps
use notification_system.Base.{
  max, ◌∙◌, ℕ, zero, suc, ◌+◌, ◌*◌, ◌/◌, ◌≤◌, ◌<◌, Option, none, some, Bool, true, false, leb, ltb,
  if◌then◌else◌, ◌<>◌, ◌≡◌, ◌≢◌, refl, arith,
}
use notification_system.Domain.Errors.{Result, ok, err, wrapped}
use notification_system.World.{Env, World, Verdict, answered, refused, unread, Action, call}
use notification_system.RateLimiter.Bucket.{run_script}

abbrev pub micros : ℕ → ℕ
micros t = t / 1000

-- The script's call: it runs on the server when the call ends.
allow_after : ℕ → ℕ → Verdict × World → Result Bool × World
allow_after rate now (refused m, w) = (err (wrapped ("rate limiter script: " <> m)), w)
allow_after rate now (unread m, w) = (
  err (wrapped ("rate limiter script: " <> m)),
  record w { bucket = (run_script rate now (micros w.now) w.bucket).1 },
)
allow_after rate now (answered, w) =
    let (allowed, store) = run_script rate now (micros w.now) w.bucket in
    (ok allowed, record w { bucket = store })

unfoldable pub allow : Env → ℕ → Action Bool
unfolding allow_after
allow env rate w = allow_after rate (micros w.now) (call env w)

-- How `Wait` ends: nil, its timeout error, the context's error; `exhausted` is the model's fuel.
pub data Waited : Type 0 where
  passed timed_out cancelled exhausted : Waited

abbrev pub poll_interval : ℕ
poll_interval = 10000000

abbrev pub wait_limit : ℕ
wait_limit = 5000000000

-- The cases of the `select`, with the time at which the case is taken.
pub data Fired : Type 0 where
  tick deadline done : ℕ → Fired

-- The timer runs out at `t + poll_interval`.
timer_or_deadline : ℕ → ℕ → Fired
timer_or_deadline limit t =
    if leb (t + poll_interval) limit then tick (t + poll_interval) else deadline limit

-- A cancellation at `c` comes before what else would be taken at `u`.
unless_done : ℕ → ℕ → Fired → Fired
unless_done c t (tick u) = if ltb c u then done (max c t) else tick u
unless_done c t (deadline u) = if leb c u then done (max c t) else deadline u
unless_done c t (done u) = done u

unfoldable pub select : Option ℕ → ℕ → ℕ → Fired
unfolding timer_or_deadline unless_done
select cancel limit t =
    let other = if leb limit t then deadline t else timer_or_deadline limit t in
    elim cancel [ none ↦ other | some c ↦ unless_done c t other ]

-- The loop, from the answer of `Allow` on; `again` is the next round.
unfoldable pub wait_after :
    Env → ℕ → (World → Waited × World) → Result Bool × World → Waited × World
wait_after env limit again (err e, w) = (passed, w)
wait_after env limit again (ok true, w) = (passed, w)
wait_after env limit again (ok false, w) = elim (select env.cancelled_at limit w.now) [
  | tick t ↦ again (record w { now = t })
  | deadline t ↦ (timed_out, record w { now = t })
  | done t ↦ (cancelled, record w { now = t })
]

unfoldable pub wait_loop : Env → ℕ → ℕ → ℕ → World → Waited × World
wait_loop env rate limit zero w = (exhausted, w)
wait_loop env rate limit (suc fuel) w =
    wait_after env limit (wait_loop env rate limit fuel) (allow env rate w)

-- Every further round starts 10 ms later and within the 5 seconds, so 501 rounds are enough.
unfoldable pub wait : Env → ℕ → World → Waited × World
unfolding wait_loop wait_after
wait env rate w = wait_loop env rate (w.now + wait_limit) 501 w

call-now : (env : Env) (w : World) → w.now ≤ (call env w).1.now
unfolding call
call-now env w = omega arith

allow-now : (env : Env) (rate : ℕ) (w : World) → w.now ≤ (allow env rate w).1.now
unfolding allow
allow-now env rate w = ground (arith, call-now env w)

select-tick :
    (cancel : Option ℕ) (limit t : ℕ) {u : ℕ}
    → select cancel limit t ≡ tick u
    → (u ≡ t + poll_interval) × (u ≤ limit)
unfolding select
select-tick cancel limit t e = ground arith

wait_after-ne-exhausted :
    (env : Env) (limit : ℕ) (again : World → Waited × World) (r : Result Bool) (w : World)
    → ((t : ℕ)
        → t ≡ w.now + poll_interval
        → t ≤ limit
        → (again (record w { now = t })).0 ≢ exhausted)
    → (wait_after env limit again (r, w)).0 ≢ exhausted
unfolding wait_after
wait_after-ne-exhausted env limit again (err e) w h = λ e'. cc
wait_after-ne-exhausted env limit again (ok true) w h = λ e'. cc
wait_after-ne-exhausted env limit again (ok false) w h =
    go (select env.cancelled_at limit w.now) refl
  where
    go :
        (f : Fired)
        → select env.cancelled_at limit w.now ≡ f
        → (wait_after env limit again (ok false, w)).0 ≢ exhausted
    go (tick t) e =
        let (same, within) = select-tick env.cancelled_at limit w.now e in
        rw (e, wait_after) (h t same within)
    go (deadline t) e = rw (e, wait_after) (λ e'. cc)
    go (done t) e = rw (e, wait_after) (λ e'. cc)

wait_loop-ne-exhausted :
    (env : Env) (rate limit fuel : ℕ) (w : World)
    → w.now ≤ limit
    → limit < w.now + poll_interval * fuel
    → (wait_loop env rate limit fuel w).0 ≢ exhausted
unfolding wait_loop
wait_loop-ne-exhausted env rate limit zero w h k = absurd (omega arith)
wait_loop-ne-exhausted env rate limit (suc fuel) w h k =
    let (r, w') = allow env rate w in
    wait_after-ne-exhausted env limit (wait_loop env rate limit fuel) r w' (λ t e within.
      wait_loop-ne-exhausted env rate limit fuel (record w' { now = t }) within
        (omega (arith, allow-now env rate w)))

-- `Wait` ends: within 501 rounds it passes, times out or is cancelled.
pub wait-ne-exhausted : (env : Env) (rate : ℕ) (w : World) → (wait env rate w).0 ≢ exhausted
unfolding wait
wait-ne-exhausted env rate w =
    wait_loop-ne-exhausted env rate (w.now + wait_limit) 501 w (omega arith) (omega arith)

wait_after-passed :
    (env : Env) (limit : ℕ) (again : World → Waited × World) (s : Result Bool × World)
    → s.0 ≡ ok true
    → wait_after env limit again s ≡ (passed, s.1)
unfolding wait_after
wait_after-passed env limit again (r, w) h = rw h refl

wait_loop-passed :
    (env : Env) (rate limit fuel : ℕ) (w : World)
    → (allow env rate w).0 ≡ ok true
    → wait_loop env rate limit (suc fuel) w ≡ (passed, (allow env rate w).1)
unfolding wait_loop
wait_loop-passed env rate limit fuel w h =
    wait_after-passed env limit (wait_loop env rate limit fuel) (allow env rate w) h

-- A call that is let through at once.
pub wait-passed :
    (env : Env) (rate : ℕ) (w : World)
    → (allow env rate w).0 ≡ ok true
    → wait env rate w ≡ (passed, (allow env rate w).1)
unfolding wait
wait-passed env rate w h = wait_loop-passed env rate (w.now + wait_limit) 500 w h
