-- ===== src/Worker/Threads/Alone.antt =====
-- One worker of Threads on its own, beside `Process` of internal/worker/processor.go.
use notification_system.Base.{
  ℕ, zero, suc, ◌+◌, ◌≤◌, String, Option, none, some, Bool, true, false, ltb, max, ◌≡◌, refl, arith,
  Bool-cases, inl, inr,
}
use notification_system.Domain.Errors.{Result, ok, err}
use notification_system.Domain.Notification.{Notification}
use notification_system.World.{Env, World, Message}
use notification_system.CircuitBreaker
use notification_system.CircuitBreaker.{second}
use notification_system.RateLimiter.Wait.{
  Fired, tick, deadline, done, wait_limit, allow, select, wait, wait_loop, wait_after, Waited,
}
use notification_system.Provider.{Sent, unexpected, accepted, retryable, non_retryable, send}
use notification_system.Worker.Processor.{
  Config, Settlement, give_up, retry, conclude, after_wait, after_allow, dispatch,
}
use notification_system.Worker.Threads.{
  Place, asking, waiting, sending, recording, storing_failed, sleeping, settled, step, asked, fired,
  waited,
}

time : Fired → ℕ
time (tick t) = t
time (deadline t) = t
time (done t) = t

-- No case of the `select` lies in the past.
select-time : (cancel : Option ℕ) (limit now : ℕ) → now ≤ time (select cancel limit now)
unfolding time select
select-time none limit now = ground arith
select-time (some c) limit now = ground arith

module _ (env : Env) (c : Config) where
  -- `k` steps of one worker alone.
  unfoldable pub iterate : ℕ → Place × World → Place × World
  iterate zero s = s
  iterate (suc k) (p, w) = iterate k (step env c p w)

  -- The worker ends with this settlement and this world.
  abbrev pub Ends : Place × World → Settlement × World → Type 0
  Ends s r = (k : ℕ) × (iterate k s ≡ (settled r.0, r.1))

  pub next-Ends :
      (p : Place) (w : World) (r : Settlement × World) → Ends (step env c p w) r → Ends (p, w) r
  unfolding iterate
  next-Ends p w r (k, e) = (suc k, e)

  storing_failed-Ends :
      (id : ℕ) (msg : Message) (text : String) (w : World)
      → Ends (storing_failed id msg text, w) (give_up env id msg text w)
  unfolding iterate step give_up
  storing_failed-Ends id msg text w = (2, refl)

  recording-Ends :
      (id : ℕ) (msg : Message) (n : Notification) (s : Sent) (w : World)
      → Ends (recording id msg n s, w) (conclude env c id msg n (s, w))
  unfolding iterate step conclude retry give_up
  recording-Ends id msg n (accepted r) w = (3, refl)
  recording-Ends id msg n (retryable code message) w =
      elim (Bool-cases (ltb n.retry_count c.max_retries)) [
        | inl more ↦ (2, rw (more, retry) refl)
        | inr none_left ↦ (3, rw (none_left, retry) refl)
      ]
  recording-Ends id msg n (non_retryable code message) w = (3, refl)
  recording-Ends id msg n (unexpected message) w = (1, refl)

  sending-Ends :
      (id : ℕ) (msg : Message) (n : Notification) (w : World)
      → Ends (sending id msg n, w) (conclude env c id msg n (send env n w))
  unfolding step
  sending-Ends id msg n w =
      let (s, w') = send env n w in
      next-Ends (sending id msg n) w (conclude env c id msg n (send env n w))
        (recording-Ends id msg n s w')

  -- The case of the `select`.
  fired-Ends :
      (id : ℕ) (msg : Message) (n : Notification) (limit fuel : ℕ) (w : World) (f : Fired)
      → w.now ≤ time f
      → ((v : World)
          → Ends
              (waiting limit fuel id msg n, v)
              (after_wait env c id msg n (wait_loop env c.rate limit fuel v)))
      → Ends
          (fired limit fuel id msg n f, w)
          (after_wait env c id msg n (elim f [
            | tick t ↦ wait_loop env c.rate limit fuel (record w { now = t })
            | deadline t ↦ (Waited.timed_out, record w { now = t })
            | done t ↦ (Waited.cancelled, record w { now = t })
          ]))
  unfolding fired after_wait step iterate time
  fired-Ends id msg n limit fuel w (tick t) h again =
      let wakes : max w.now t ≡ t = omega arith in
      next-Ends (sleeping t (waiting limit fuel id msg n)) w
        (after_wait env c id msg n (wait_loop env c.rate limit fuel (record w { now = t })))
        (rw wakes (again (record w { now = t })))
  fired-Ends id msg n limit fuel w (deadline t) h again =
      let wakes : max w.now t ≡ t = omega arith in (1, rw wakes refl)
  fired-Ends id msg n limit fuel w (done t) h again =
      let wakes : max w.now t ≡ t = omega arith in (1, rw wakes refl)

  -- The next round of the loop, or its end.
  waited-Ends :
      (id : ℕ) (msg : Message) (n : Notification) (limit fuel : ℕ) (r : Result Bool) (w : World)
      → ((v : World)
          → Ends
              (waiting limit fuel id msg n, v)
              (after_wait env c id msg n (wait_loop env c.rate limit fuel v)))
      → Ends (waited env limit fuel id msg n (r, w)) (
          after_wait env c id msg n (wait_after env limit (wait_loop env c.rate limit fuel) (r, w)))
  unfolding waited after_wait wait_after
  waited-Ends id msg n limit fuel (err e) w again = sending-Ends id msg n w
  waited-Ends id msg n limit fuel (ok true) w again = sending-Ends id msg n w
  waited-Ends id msg n limit fuel (ok false) w again =
      fired-Ends id msg n limit fuel w (select env.cancelled_at limit w.now)
        (select-time env.cancelled_at limit w.now) again

  waiting-Ends :
      (id : ℕ) (msg : Message) (n : Notification) (limit fuel : ℕ) (w : World)
      → Ends
          (waiting limit fuel id msg n, w)
          (after_wait env c id msg n (wait_loop env c.rate limit fuel w))
  unfolding step iterate wait_loop after_wait
  waiting-Ends id msg n limit zero w = (1, refl)
  waiting-Ends id msg n limit (suc fuel) w =
      next-Ends (waiting limit (suc fuel) id msg n) w
        (after_wait env c id msg n (wait_loop env c.rate limit (suc fuel) w))
        (waited-Ends id msg n limit fuel (allow env c.rate w).0 (allow env c.rate w).1
          (λ v. waiting-Ends id msg n limit fuel v))

  asked-Ends :
      (id : ℕ) (msg : Message) (n : Notification) (allowed : Bool) (w : World)
      → Ends (asked id msg n allowed w, w) (after_allow env c id msg n allowed w)
  unfolding asked after_allow wait iterate step
  asked-Ends id msg n true w = waiting-Ends id msg n (w.now + wait_limit) 501 w
  asked-Ends id msg n false w =
      let wakes : max w.now (w.now + second) ≡ w.now + second = omega arith in (1, rw wakes refl)

  pub asking-Ends :
      (id : ℕ) (msg : Message) (n : Notification) (w : World)
      → Ends (asking id msg n, w) (dispatch env c id msg n w)
  unfolding step dispatch
  asking-Ends id msg n w = next-Ends (asking id msg n) w (dispatch env c id msg n w) (
      asked-Ends id msg n (CircuitBreaker.allow w.now w.breaker).1
        (record w { breaker = (CircuitBreaker.allow w.now w.breaker).0 }))
