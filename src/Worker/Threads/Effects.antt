-- ===== src/Worker/Threads/Effects.antt =====
-- What one step of a worker does to the circuit breaker and to the requests that have left.
use notification_system.Base.{
  ℕ, zero, suc, ◌≤◌, Option, none, some, Bool, true, false, ◌≡◌, refl, length, arith, ltb,
  Bool-cases, inl, inr,
}
use notification_system.Domain.Errors.{Result, ok, err}
use notification_system.Domain.Notification.{Notification}
use notification_system.World.{Env, World, Message, call}
use notification_system.CircuitBreaker
use notification_system.CircuitBreaker.{CircuitBreaker}
use notification_system.RateLimiter.Wait.{allow}
use notification_system.RateLimiter.Wait.Keeps.{allow-keeps}
use notification_system.Provider.{send}
use notification_system.Repository.Lifecycle.{
  Operation, sends, fails, retries, apply, apply-OnlyRows,
}
use notification_system.Repository.Notifications.{get_by_id, update_status}
use notification_system.Worker.Processor.{Config}
use notification_system.Worker.Processor.Attempts.{length-requested}
use notification_system.Worker.Processor.Frames.{get_by_id-Quiet, update_status-Quiet, notify-Quiet}
use notification_system.Worker.Threads.{
  Place, fetching, holding_off, marking, telling, asking, waiting, sending, recording, storing_sent,
  storing_failed, storing_retry, announcing, sleeping, settled, step, begin, fetched, slept,
  held_off, marked, asked, waited,
}
use notification_system.Worker.Threads.System.{records}

-- The breaker has let the worker through, and does not yet know the outcome.
unfoldable pub in_flight : Place → Bool
in_flight (waiting limit fuel id msg n) = true
in_flight (sending id msg n) = true
in_flight (recording id msg n s) = true
in_flight (sleeping t p) = in_flight p
in_flight _ = false

-- `aside`: the breaker and the requests are as before; `asks`: it has asked the breaker; `posts`:
-- it has called the provider; `notes`: it tells the breaker an outcome.
pub data Effect (p : Place) (w : World) (p' : Place) (w' : World) : Type 0 where
  aside :
      records p ≡ 0
      → w'.breaker ≡ w.breaker
      → w'.requests ≡ w.requests
      → (in_flight p ≡ false → in_flight p' ≡ false)
      → Effect p w p' w'
  asks :
      in_flight p ≡ false
      → w'.breaker ≡ (CircuitBreaker.allow w.now w.breaker).0
      → w'.requests ≡ w.requests
      → in_flight p' ≡ (CircuitBreaker.allow w.now w.breaker).1
      → Effect p w p' w'
  posts :
      in_flight p ≡ true
      → records p ≡ 0
      → records p' ≡ 1
      → w'.breaker ≡ w.breaker
      → length w'.requests ≤ suc (length w.requests)
      → Effect p w p' w'
  notes : records p ≡ 1 → Effect p w p' w'

pub begin-in_flight : (env : Env) (body : Option Message) → in_flight (begin env body) ≡ false
unfolding begin in_flight
begin-in_flight env none = refl
begin-in_flight env (some msg) = ground arith

-- Who tells an outcome has been let through.
pub records-in_flight : (p : Place) → records p ≡ 1 → in_flight p ≡ true
unfolding records in_flight
records-in_flight (recording id msg n s) e = refl
records-in_flight (fetching id msg) e = absurd (omega arith)
records-in_flight (holding_off id msg n) e = absurd (omega arith)
records-in_flight (marking id msg n) e = absurd (omega arith)
records-in_flight (telling id msg n) e = absurd (omega arith)
records-in_flight (asking id msg n) e = absurd (omega arith)
records-in_flight (waiting limit fuel id msg n) e = refl
records-in_flight (sending id msg n) e = refl
records-in_flight (storing_sent id msg m) e = absurd (omega arith)
records-in_flight (storing_failed id msg m) e = absurd (omega arith)
records-in_flight (storing_retry id msg n) e = absurd (omega arith)
records-in_flight (announcing id msg m s) e = absurd (omega arith)
records-in_flight (sleeping t p) e = absurd (omega arith)
records-in_flight (settled s) e = absurd (omega arith)

fetched-Effect :
    (p : Place) (w : World) (id : ℕ) (msg : Message) (r : Result Notification) (w' : World)
    → records p ≡ 0
    → w'.breaker ≡ w.breaker
    → w'.requests ≡ w.requests
    → Effect p w (fetched id msg (r, w')).0 (fetched id msg (r, w')).1
unfolding fetched in_flight
fetched-Effect p w id msg (err e) w' z b q = aside z b q (λ h. refl)
fetched-Effect p w id msg (ok n) w' z b q = aside z b q (λ h. refl)

marked-Effect :
    (p : Place) (w : World) (id : ℕ) (msg : Message) (n : Notification) (r : Result (Unit {0}))
    (w' : World)
    → records p ≡ 0
    → w'.breaker ≡ w.breaker
    → w'.requests ≡ w.requests
    → Effect p w (marked id msg n (r, w')).0 (marked id msg n (r, w')).1
unfolding marked in_flight
marked-Effect p w id msg n (err e) w' z b q = aside z b q (λ h. refl)
marked-Effect p w id msg n (ok _) w' z b q = aside z b q (λ h. refl)

slept-in_flight :
    (cancel : Option ℕ) (id : ℕ) (msg : Message) (n : Notification) (t : ℕ) (w : World)
    → in_flight (slept cancel id msg n t w) ≡ false
unfolding slept in_flight
slept-in_flight none id msg n t w = refl
slept-in_flight (some c) id msg n t w = ground arith

held_off-in_flight :
    (env : Env) (id : ℕ) (msg : Message) (n : Notification) (t : Option ℕ) (w : World)
    → in_flight (held_off env id msg n t w) ≡ false
unfolding held_off in_flight
held_off-in_flight env id msg n none w = refl
held_off-in_flight env id msg n (some t) w = elim (Bool-cases (ltb w.now t)) [
  | inl early ↦ rw early (slept-in_flight env.cancelled_at id msg n t w)
  | inr due ↦ rw due refl
]

asked-in_flight :
    (id : ℕ) (msg : Message) (n : Notification) (allowed : Bool) (w : World)
    → in_flight (asked id msg n allowed w) ≡ allowed
unfolding asked in_flight
asked-in_flight id msg n true w = refl
asked-in_flight id msg n false w = refl

waited-Effect :
    (p : Place) (w : World) (env : Env) (limit fuel id : ℕ) (msg : Message) (n : Notification)
    (r : Result Bool) (w' : World)
    → records p ≡ 0
    → in_flight p ≡ true
    → w'.breaker ≡ w.breaker
    → w'.requests ≡ w.requests
    → Effect p w
        (waited env limit fuel id msg n (r, w')).0
        (waited env limit fuel id msg n (r, w')).1
unfolding waited
waited-Effect p w env limit fuel id msg n (err e) w' z f b q = aside z b q (λ h. cc)
waited-Effect p w env limit fuel id msg n (ok true) w' z f b q = aside z b q (λ h. cc)
waited-Effect p w env limit fuel id msg n (ok false) w' z f b q = aside z b q (λ h. cc)

-- A write of the worker.
write-Effect :
    (p : Place) (env : Env) (o : Operation) (w : World) (p' : Place)
    → records p ≡ 0
    → in_flight p' ≡ false
    → Effect p w p' (apply env o w)
write-Effect p env o w p' z f =
    let only = apply-OnlyRows env o w in aside z only.breaker only.requests (λ h. f)

-- The effect of each step.
pub step-Effect :
    (env : Env) (c : Config) (p : Place) (w : World)
    → Effect p w (step env c p w).0 (step env c p w).1
unfolding step in_flight records apply send call
step-Effect env c (fetching id msg) w =
    let q = get_by_id-Quiet env id w in
    fetched-Effect (fetching id msg) w id msg (get_by_id env id w).0 (get_by_id env id w).1 refl
      q.breaker q.requests
step-Effect env c (holding_off id msg n) w =
    aside refl refl refl (λ h. held_off-in_flight env id msg n n.next_retry_at w)
step-Effect env c (marking id msg n) w =
    let s = update_status env id _ w in
    let q = update_status-Quiet env id _ w in
    marked-Effect (marking id msg n) w id msg n s.0 s.1 refl q.breaker q.requests
step-Effect env c (telling id msg n) w =
    let q = notify-Quiet env id _ msg.channel w in aside refl q.breaker q.requests (λ h. refl)
step-Effect env c (asking id msg n) w =
    let (breaker, allowed) = CircuitBreaker.allow w.now w.breaker in
    asks refl refl refl (asked-in_flight id msg n allowed (record w { breaker = breaker }))
step-Effect env c (waiting limit zero id msg n) w = aside refl refl refl (λ h. refl)
step-Effect env c (waiting limit (suc fuel) id msg n) w =
    waited-Effect (waiting limit (suc fuel) id msg n) w env limit fuel id msg n
      (allow env c.rate w).0 (allow env c.rate w).1 refl refl
      (allow-keeps (λ v. v.breaker) (λ v now calls b. refl) env c.rate w)
      (allow-keeps (λ v. v.requests) (λ v now calls b. refl) env c.rate w)
step-Effect env c (sending id msg n) w =
    posts refl refl refl refl (length-requested n (env.reply w.calls) w.requests)
step-Effect env c (recording id msg n s) w = notes refl
step-Effect env c (storing_sent id msg message_id) w =
    write-Effect (storing_sent id msg message_id) env (sends id message_id) w _ refl refl
step-Effect env c (storing_failed id msg text) w =
    write-Effect (storing_failed id msg text) env (fails id text) w _ refl refl
step-Effect env c (storing_retry id msg n) w =
    write-Effect (storing_retry id msg n) env (retries id _) w _ refl refl
step-Effect env c (announcing id msg status s) w =
    let q = notify-Quiet env id status msg.channel w in aside refl q.breaker q.requests (λ h. refl)
step-Effect env c (sleeping t p) w = aside refl refl refl (λ h. h)
step-Effect env c (settled s) w = aside refl refl refl (λ h. h)
