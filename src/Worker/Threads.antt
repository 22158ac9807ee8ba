-- ===== src/Worker/Threads.antt =====
-- The workers of a channel side by side: `Process` cut where another worker may run in between, at
-- each call of PostgreSQL, Redis and the provider, at each use of the circuit breaker and at each
-- sleep. They share the world; whose turn it is, nobody says.
pub mod Alone
pub mod Refined
pub mod System
pub mod Effects
pub mod Isolation
pub mod Probe
pub mod Invariant
use notification_system.Base.{
  ℕ, zero, suc, ◌+◌, ◌==◌, String, List, [], ◌∷◌, ◌++◌, Option, none, some, Bool, true, false, ltb,
  leb, max, ◌<>◌, decimal, ◌≡◌, if◌then◌else◌,
}
use notification_system.Domain.Errors.{Result, ok, err}
use notification_system.Domain.Notification.{
  Notification, status_processing, status_sent, status_failed,
}
use notification_system.World.{Env, World, Message}
use notification_system.CircuitBreaker
use notification_system.CircuitBreaker.{second}
use notification_system.RateLimiter.Wait.{Fired, tick, deadline, done, wait_limit, allow, select}
use notification_system.Provider.{Sent, unexpected, accepted, retryable, non_retryable, send}
use notification_system.Repository.Notifications.{
  get_by_id, update_status, update_sent, update_failed, increment_retry,
}
use notification_system.Worker.Backoff.{calculate_backoff}
use notification_system.Worker.Processor.{
  Config, Settlement, acked, requeued, dead_lettered, unsettled, notify, succeeded, failed,
  add_time,
}

-- Where a worker stands in `Process`, with its local variables; what it names is what comes next.
pub data Place : Type 0 where
  fetching : ℕ → Message → Place
  holding_off marking telling asking : ℕ → Message → Notification → Place
  waiting : ℕ → ℕ → ℕ → Message → Notification → Place
  sending : ℕ → Message → Notification → Place
  recording : ℕ → Message → Notification → Sent → Place
  storing_sent storing_failed : ℕ → Message → String → Place
  storing_retry : ℕ → Message → Notification → Place
  announcing : ℕ → Message → String → Settlement → Place
  sleeping : ℕ → Place → Place
  settled : Settlement → Place

fetched : ℕ → Message → Result Notification × World → Place × World
fetched id msg (err e, w) = (settled requeued, w)
fetched id msg (ok n, w) = (holding_off id msg n, w)

-- The sleep until `t`, which a cancellation of the context cuts short.
slept : Option ℕ → ℕ → Message → Notification → ℕ → World → Place
slept none id msg n t w = sleeping t (marking id msg n)
slept (some c) id msg n t w =
    if leb c w.now
    then settled requeued
    else if leb t c
    then sleeping t (marking id msg n)
    else sleeping c (settled requeued)

-- The wait for `NextRetryAt`, if that is still to come.
held_off : Env → ℕ → Message → Notification → Option ℕ → World → Place
held_off env id msg n none w = marking id msg n
held_off env id msg n (some t) w =
    if ltb w.now t then slept env.cancelled_at id msg n t w else marking id msg n

marked : ℕ → Message → Notification → Result (Unit {0}) × World → Place × World
marked id msg n (err e, w) = (settled requeued, w)
marked id msg n (ok _, w) = (telling id msg n, w)

-- `Wait` starts; the model gives its loop 501 rounds.
asked : ℕ → Message → Notification → Bool → World → Place
asked id msg n true w = waiting (w.now + wait_limit) 501 id msg n
asked id msg n false w = sleeping (w.now + second) (settled requeued)

-- The case that the `select` takes.
fired : ℕ → ℕ → ℕ → Message → Notification → Fired → Place
fired limit fuel id msg n (tick t) = sleeping t (waiting limit fuel id msg n)
fired limit fuel id msg n (deadline t) = sleeping t (settled requeued)
fired limit fuel id msg n (done t) = sleeping t (settled requeued)

-- One round of the loop of `Wait`, from the answer of `Allow` on.
waited : Env → ℕ → ℕ → ℕ → Message → Notification → Result Bool × World → Place × World
waited env limit fuel id msg n (err e, w) = (sending id msg n, w)
waited env limit fuel id msg n (ok true, w) = (sending id msg n, w)
waited env limit fuel id msg n (ok false, w) =
    (fired limit fuel id msg n (select env.cancelled_at limit w.now), w)

-- After the breaker has the outcome.
recorded : Config → ℕ → Message → Notification → Sent → Place
recorded c id msg n (accepted r) = storing_sent id msg r.message_id
recorded c id msg n (retryable code message) =
    if ltb n.retry_count c.max_retries
    then storing_retry id msg n
    else storing_failed id msg ("max retries exceeded: " <> message)
recorded c id msg n (non_retryable code message) =
    storing_failed id msg ("permanent failure (HTTP " <> decimal code <> "): " <> message)
recorded c id msg n (unexpected message) = settled requeued

outcome : Sent → World → World
outcome (accepted r) w = succeeded w
outcome (retryable code message) w = failed w
outcome (non_retryable code message) w = failed w
outcome (unexpected message) w = failed w

-- A worker's next step.
unfoldable pub step : Env → Config → Place → World → Place × World
unfolding fetched slept held_off marked asked fired waited recorded outcome
step env c (fetching id msg) w = fetched id msg (get_by_id env id w)
step env c (holding_off id msg n) w = (held_off env id msg n n.next_retry_at w, w)
step env c (marking id msg n) w = marked id msg n (update_status env id status_processing w)
step env c (telling id msg n) w = (asking id msg n, notify env id status_processing msg.channel w)
step env c (asking id msg n) w =
    let (breaker, allowed) = CircuitBreaker.allow w.now w.breaker in
    let w' : World = record w { breaker = breaker } in (asked id msg n allowed w', w')
step env c (waiting limit zero id msg n) w = (settled unsettled, w)
step env c (waiting limit (suc fuel) id msg n) w =
    waited env limit fuel id msg n (allow env c.rate w)
step env c (sending id msg n) w = let (s, w') = send env n w in (recording id msg n s, w')
step env c (recording id msg n s) w = (recorded c id msg n s, outcome s w)
step env c (storing_sent id msg message_id) w =
    (announcing id msg status_sent acked, (update_sent env id message_id w).1)
step env c (storing_failed id msg text) w =
    (announcing id msg status_failed dead_lettered, (update_failed env id text w).1)
step env c (storing_retry id msg n) w = (
  settled requeued,
  (increment_retry env id (add_time w.now (calculate_backoff n.retry_count (env.jitter w.calls)))
      w).1,
)
step env c (announcing id msg status s) w = (settled s, notify env id status msg.channel w)
step env c (sleeping t p) w = (p, record w { now = max w.now t })
step env c (settled s) w = (settled s, w)

-- Where a delivery begins.
unfoldable pub begin : Env → Option Message → Place
begin env none = settled acked
begin env (some msg) = elim (env.uuid_parse msg.id) [
  | none ↦ settled acked
  | some id ↦ fetching id msg
]
