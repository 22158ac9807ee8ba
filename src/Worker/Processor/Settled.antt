-- ===== src/Worker/Processor/Settled.antt =====
-- Every delivery is settled.
use notification_system.Base.{ℕ, Option, none, some, Bool, true, false, ◌≢◌, refl, arith}
use notification_system.Domain.Errors.{Result, ok, err}
use notification_system.Domain.Notification.{Notification}
use notification_system.World.{Env, World, Message}
use notification_system.RateLimiter.Wait.{
  Waited, passed, timed_out, cancelled, exhausted, wait, wait-ne-exhausted,
}
use notification_system.Provider.{Sent, unexpected, accepted, retryable, non_retryable, send}
use notification_system.Worker.Processor.{
  Config, unsettled, conclude, after_wait, after_allow, dispatch, after_mark, mark, after_backoff,
  after_get, with_id, process, give_up,
}

module _ (env : Env) (c : Config) (id : ℕ) (msg : Message) (n : Notification) where
  conclude_settles : (s : Sent) (w : World) → (conclude env c id msg n (s, w)).0 ≢ unsettled
  unfolding conclude give_up
  conclude_settles (accepted r) w = λ e. cc
  conclude_settles (retryable code m) w = ground arith
  conclude_settles (non_retryable code m) w = λ e. cc
  conclude_settles (unexpected m) w = λ e. cc

  after_wait_settles :
      (r : Waited) (w : World) → r ≢ exhausted → (after_wait env c id msg n (r, w)).0 ≢ unsettled
  unfolding after_wait
  after_wait_settles passed w h = conclude_settles (send env n w).0 (send env n w).1
  after_wait_settles timed_out w h = λ e. cc
  after_wait_settles cancelled w h = λ e. cc
  after_wait_settles exhausted w h = absurd (h refl)

  after_allow_settles : (b : Bool) (w : World) → (after_allow env c id msg n b w).0 ≢ unsettled
  unfolding after_allow
  after_allow_settles true w =
      after_wait_settles (wait env c.rate w).0 (wait env c.rate w).1
        (wait-ne-exhausted env c.rate w)
  after_allow_settles false w = λ e. cc

  after_mark_settles :
      (r : Result (Unit {0})) (w : World) → (after_mark env c id msg n (r, w)).0 ≢ unsettled
  unfolding after_mark dispatch
  after_mark_settles (err e) w = λ e'. cc
  after_mark_settles (ok _) w = after_allow_settles _ _

  after_backoff_settles :
      (b : Bool) (w : World) → (after_backoff env c id msg n (b, w)).0 ≢ unsettled
  unfolding after_backoff mark
  after_backoff_settles true w = after_mark_settles _ _
  after_backoff_settles false w = λ e. cc

module _ (env : Env) (c : Config) (msg : Message) where
  after_get_settles :
      (id : ℕ) (r : Result Notification) (w : World) → (after_get env c id msg (r, w)).0 ≢ unsettled
  unfolding after_get
  after_get_settles id (err e) w = λ e'. cc
  after_get_settles id (ok n) w = after_backoff_settles env c id msg n _ _

  with_id_settles : (o : Option ℕ) (w : World) → (with_id env c msg o w).0 ≢ unsettled
  unfolding with_id
  with_id_settles none w = λ e. cc
  with_id_settles (some id) w = after_get_settles id _ _

-- Whatever the environment answers, `Process` returns with the delivery acknowledged, put back or
-- sent to the dead letter queue.
pub process_settles :
    (env : Env) (c : Config) (body : Option Message) (w : World)
    → (process env c body w).0 ≢ unsettled
unfolding process
process_settles env c none w = λ e. cc
process_settles env c (some msg) w = with_id_settles env c msg _ w
