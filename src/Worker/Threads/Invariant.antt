-- ===== src/Worker/Threads/Invariant.antt =====
-- The state that the workers share, step by step.
use notification_system.Base.{ℕ, zero, suc, Bool, true, false, ◌≡◌, refl, arith, String}
use notification_system.Domain.Errors.{Result, ok, err}
use notification_system.Domain.Notification.{Notification, status_processing}
use notification_system.World.{Env, World, Message, call}
use notification_system.CircuitBreaker
use notification_system.CircuitBreaker.{CircuitBreaker, allows, succeeds}
use notification_system.CircuitBreaker.Counters.{Inv, step-Inv}
use notification_system.RateLimiter.Wait.{allow}
use notification_system.RateLimiter.Wait.Keeps.{allow-keeps}
use notification_system.Provider.{Sent, unexpected, accepted, retryable, non_retryable, send}
use notification_system.Repository.Sql.{query}
use notification_system.Repository.Notifications.{get_by_id, update_status}
use notification_system.Repository.Lifecycle.{
  Operation, marks, retries, apply, apply-IsTable, apply-OnlyRows,
}
use notification_system.Repository.Tables.{IsTable}
use notification_system.Worker.Processor.{Config, notify, succeeded, failed}
use notification_system.Worker.Threads.{
  Place, fetching, holding_off, marking, telling, asking, waiting, sending, recording, storing_sent,
  storing_failed, storing_retry, announcing, sleeping, settled, step, fetched, marked, waited,
  outcome,
}
use notification_system.Worker.Threads.System.{
  System, Step, take, move, write, pass, Reach, here, next,
}

-- The table is legal, with no id and no idempotency key twice, and the breaker's counters add up.
pub record IsSound (w : World) : Type 0 where
  pub table : IsTable w.rows
  pub breaker : Inv w.breaker

same-IsSound : {w w' : World} → w'.rows ≡ w.rows → w'.breaker ≡ w.breaker → IsSound w → IsSound w'
same-IsSound r b h = record { table = rw r h.table; breaker = rw b h.breaker }

apply-IsSound : (env : Env) (o : Operation) (w : World) → IsSound w → IsSound (apply env o w)
apply-IsSound env o w h = record {
  table = apply-IsTable env o w h.table;
  breaker = rw ((apply-OnlyRows env o w).breaker) h.breaker;
}

notify-IsSound :
    (env : Env) (id : ℕ) (status channel : String) (w : World)
    → IsSound w
    → IsSound (notify env id status channel w)
unfolding notify call
notify-IsSound env id status channel w = same-IsSound (ground arith) (ground arith)

get_by_id-IsSound : (env : Env) (id : ℕ) (w : World) → IsSound w → IsSound (get_by_id env id w).1
unfolding get_by_id query call
get_by_id-IsSound env id w = same-IsSound (ground arith) (ground arith)

allow-IsSound : (env : Env) (rate : ℕ) (w : World) → IsSound w → IsSound (allow env rate w).1
allow-IsSound env rate w =
    same-IsSound (allow-keeps (λ v. v.rows) (λ v now calls b. refl) env rate w)
      (allow-keeps (λ v. v.breaker) (λ v now calls b. refl) env rate w)

send-IsSound : (env : Env) (n : Notification) (w : World) → IsSound w → IsSound (send env n w).1
unfolding send call
send-IsSound env n w h = record { table = h.table; breaker = h.breaker }

outcome-IsSound : (s : Sent) (w : World) → IsSound w → IsSound (outcome s w)
unfolding outcome CircuitBreaker.step failed succeeded
outcome-IsSound (accepted r) w h = record {
  table = h.table;
  breaker = step-Inv w.breaker (w.now, succeeds) h.breaker;
}
outcome-IsSound (retryable code m) w h = record {
  table = h.table;
  breaker = step-Inv w.breaker (w.now, CircuitBreaker.fails) h.breaker;
}
outcome-IsSound (non_retryable code m) w h = record {
  table = h.table;
  breaker = step-Inv w.breaker (w.now, CircuitBreaker.fails) h.breaker;
}
outcome-IsSound (unexpected m) w h = record {
  table = h.table;
  breaker = step-Inv w.breaker (w.now, CircuitBreaker.fails) h.breaker;
}

-- The answers of the repository and of the rate limiter decide the place only.
fetched-world :
    (id : ℕ) (msg : Message) (r : Result Notification) (w : World) → (fetched id msg (r, w)).1 ≡ w
unfolding fetched
fetched-world id msg (err e) w = refl
fetched-world id msg (ok n) w = refl

marked-world :
    (id : ℕ) (msg : Message) (n : Notification) (r : Result (Unit {0})) (w : World)
    → (marked id msg n (r, w)).1 ≡ w
unfolding marked
marked-world id msg n (err e) w = refl
marked-world id msg n (ok _) w = refl

waited-world :
    (env : Env) (limit fuel id : ℕ) (msg : Message) (n : Notification) (r : Result Bool) (w : World)
    → (waited env limit fuel id msg n (r, w)).1 ≡ w
unfolding waited
waited-world env limit fuel id msg n (err e) w = refl
waited-world env limit fuel id msg n (ok true) w = refl
waited-world env limit fuel id msg n (ok false) w = refl

step-IsSound :
    (env : Env) (c : Config) (p : Place) (w : World) → IsSound w → IsSound (step env c p w).1
unfolding step apply CircuitBreaker.step
step-IsSound env c (fetching id msg) w h =
    let s = get_by_id env id w in rw (fetched-world id msg s.0 s.1) (get_by_id-IsSound env id w h)
step-IsSound env c (holding_off id msg n) w h = h
step-IsSound env c (marking id msg n) w h =
    let s = update_status env id status_processing w in
    rw (marked-world id msg n s.0 s.1) (apply-IsSound env (marks id status_processing) w h)
step-IsSound env c (telling id msg n) w h = notify-IsSound env id _ msg.channel w h
step-IsSound env c (asking id msg n) w h = record {
  table = h.table;
  breaker = step-Inv w.breaker (w.now, allows) h.breaker;
}
step-IsSound env c (waiting limit zero id msg n) w h = h
step-IsSound env c (waiting limit (suc fuel) id msg n) w h =
    let s = allow env c.rate w in
    rw (waited-world env limit fuel id msg n s.0 s.1) (allow-IsSound env c.rate w h)
step-IsSound env c (sending id msg n) w h = send-IsSound env n w h
step-IsSound env c (recording id msg n s) w h = outcome-IsSound s w h
step-IsSound env c (storing_sent id msg m) w h = apply-IsSound env (Operation.sends id m) w h
step-IsSound env c (storing_failed id msg text) w h =
    apply-IsSound env (Operation.fails id text) w h
step-IsSound env c (storing_retry id msg n) w h = apply-IsSound env (retries id _) w h
step-IsSound env c (announcing id msg status s) w h = notify-IsSound env id status msg.channel w h
step-IsSound env c (sleeping t p) w h = record { table = h.table; breaker = h.breaker }
step-IsSound env c (settled s) w h = h

Step-IsSound :
    {env : Env} {c : Config} {s t : System} → Step env c s t → IsSound s.world → IsSound t.world
Step-IsSound (take i last body e) h = h
Step-IsSound {env} {c} {s} (move i) h = step-IsSound env c (s.place i) s.world h
Step-IsSound {env} {c} {s} (write o) h = apply-IsSound env o s.world h
Step-IsSound (pass d) h = record { table = h.table; breaker = h.breaker }

-- However the steps of the workers, the writes of the API and of the scheduler and time are
-- interleaved, and whichever calls fail: the rows stay legal, no two of them share an id or an
-- idempotency key, and the breaker's failures and successes add up to its total.
pub Reach-IsSound :
    {env : Env} {c : Config} {s t : System} → Reach env c s t → IsSound s.world → IsSound t.world
Reach-IsSound here h = h
Reach-IsSound (next r st) h = Step-IsSound st (Reach-IsSound r h)
