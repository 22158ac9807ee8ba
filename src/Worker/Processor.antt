-- ===== src/Worker/Processor.antt =====
-- internal/worker/processor.go, `Process`, in its stages, and the loop of dispatcher.go's `run`.
-- Where the source returns early, a stage ends with how the delivery is settled. The body of a
-- delivery is what `json.Unmarshal` makes of it, `none` where it fails.
pub mod Settled
pub mod Outcomes
pub mod Frames
pub mod Updates
pub mod Delivery
pub mod Attempts
pub mod Retries
use notification_system.Base.{
  ℕ, suc, ◌+◌, String, List, [], ◌∷◌, ◌++◌, Option, none, some, Bool, true, false, ltb, ◌<>◌,
  decimal, if◌then◌else◌,
}
use notification_system.Base.Int.{ℤ, pos, pos_part, ◌+ℤ◌}
use notification_system.Domain.Errors.{Result, ok, err}
use notification_system.Domain.Notification.{
  Notification, status_processing, status_sent, status_failed,
}
use notification_system.World.{
  Env, World, Verdict, answered, refused, unread, Message, StatusUpdate, ProviderResponse, call,
  sleep_until,
}
use notification_system.CircuitBreaker
use notification_system.CircuitBreaker.{second}
use notification_system.RateLimiter.Wait.{Waited, passed, timed_out, cancelled, exhausted, wait}
use notification_system.Provider.{Sent, unexpected, accepted, retryable, non_retryable, send}
use notification_system.Repository.Notifications.{
  get_by_id, update_status, update_sent, update_failed, increment_retry,
}
use notification_system.Worker.Backoff.{calculate_backoff}

-- The processor's fixed values: the limiter's rate and the bound on retries.
pub record Config : Type 0 where
  pub rate : ℕ
  pub max_retries : ℕ

-- `Ack`, `Nack` with requeue, `Nack` without, which goes to the dead letter queue; `unsettled` is a
-- delivery on which none is called.
pub data Settlement : Type 0 where
  acked requeued dead_lettered unsettled : Settlement

-- internal/pubsub/redis.go, `Publish`: errors are logged only.
notify_after : StatusUpdate → Verdict × World → World
notify_after u (answered, w) = record w { updates = w.updates ++ u ∷ [] }
notify_after u (refused m, w) = w
notify_after u (unread m, w) = record w { updates = w.updates ++ u ∷ [] }

-- `ps.Publish(ctx, NewStatusUpdate(...))`.
unfoldable pub notify : Env → ℕ → String → String → World → World
unfolding notify_after
notify env id status channel w =
    notify_after
      (record {
        notification_id = env.uuid_string id;
        status = status;
        channel = channel;
        timestamp = w.now;
      })
      (call env w)

unfoldable pub succeeded : World → World
succeeded w = record w { breaker = CircuitBreaker.record_success w.now w.breaker }

unfoldable pub failed : World → World
failed w = record w { breaker = CircuitBreaker.record_failure w.now w.breaker }

-- `time.Now().Add(d)`
abbrev pub add_time : ℕ → ℤ → ℕ
add_time t d = pos_part (pos t +ℤ d)

-- The message failed for good.
unfoldable pub give_up : Env → ℕ → Message → String → World → Settlement × World
give_up env id msg text w =
    (dead_lettered, notify env id status_failed msg.channel (update_failed env id text w).1)

unfoldable pub retry :
    Env → Config → ℕ → Message → Notification → String → World → Settlement × World
retry env c id msg n message w =
    if ltb n.retry_count c.max_retries
    then (
      requeued,
      (increment_retry env id
          (add_time w.now (calculate_backoff n.retry_count (env.jitter w.calls))) w).1,
    )
    else give_up env id msg ("max retries exceeded: " <> message) w

-- What follows `provider.Send`, by its result.
unfoldable pub conclude :
    Env → Config → ℕ → Message → Notification → Sent × World → Settlement × World
unfolding retry succeeded failed
conclude env c id msg n (accepted r, w) =
    (acked, notify env id status_sent msg.channel (update_sent env id r.message_id (succeeded w)).1)
conclude env c id msg n (retryable code message, w) = retry env c id msg n message (failed w)
conclude env c id msg n (non_retryable code message, w) =
    give_up env id msg ("permanent failure (HTTP " <> decimal code <> "): " <> message) (failed w)
conclude env c id msg n (unexpected message, w) = (requeued, failed w)

unfoldable pub after_wait :
    Env → Config → ℕ → Message → Notification → Waited × World → Settlement × World
after_wait env c id msg n (passed, w) = conclude env c id msg n (send env n w)
after_wait env c id msg n (timed_out, w) = (requeued, w)
after_wait env c id msg n (cancelled, w) = (requeued, w)
after_wait env c id msg n (exhausted, w) = (unsettled, w)

-- A refused delivery is put back, and the worker sleeps for a second.
unfoldable pub after_allow :
    Env → Config → ℕ → Message → Notification → Bool → World → Settlement × World
after_allow env c id msg n true w = after_wait env c id msg n (wait env c.rate w)
after_allow env c id msg n false w = (requeued, record w { now = w.now + second })

-- The circuit breaker, the rate limiter and the provider.
unfoldable pub dispatch : Env → Config → ℕ → Message → Notification → World → Settlement × World
unfolding after_allow after_wait
dispatch env c id msg n w =
    let (breaker, allowed) = CircuitBreaker.allow w.now w.breaker in
    after_allow env c id msg n allowed (record w { breaker = breaker })

unfoldable pub after_mark :
    Env → Config → ℕ → Message → Notification → Result (Unit {0}) × World → Settlement × World
after_mark env c id msg n (err e, w) = (requeued, w)
after_mark env c id msg n (ok _, w) =
    dispatch env c id msg n (notify env id status_processing msg.channel w)

-- The status is set to processing, whatever it was.
unfoldable pub mark : Env → Config → ℕ → Message → Notification → World → Settlement × World
unfolding after_mark
mark env c id msg n w = after_mark env c id msg n (update_status env id status_processing w)

-- The wait for `NextRetryAt`, if that is still to come.
unfoldable pub backoff_wait : Env → Option ℕ → World → Bool × World
backoff_wait env none w = (true, w)
backoff_wait env (some t) w = if ltb w.now t then sleep_until env t w else (true, w)

unfoldable pub after_backoff :
    Env → Config → ℕ → Message → Notification → Bool × World → Settlement × World
after_backoff env c id msg n (true, w) = mark env c id msg n w
after_backoff env c id msg n (false, w) = (requeued, w)

unfoldable pub after_get :
    Env → Config → ℕ → Message → Result Notification × World → Settlement × World
after_get env c id msg (err e, w) = (requeued, w)
after_get env c id msg (ok n, w) = after_backoff env c id msg n (backoff_wait env n.next_retry_at w)

unfoldable pub with_id : Env → Config → Message → Option ℕ → World → Settlement × World
with_id env c msg none w = (acked, w)
with_id env c msg (some id) w = after_get env c id msg (get_by_id env id w)

unfoldable pub process : Env → Config → Option Message → World → Settlement × World
unfolding with_id after_get after_backoff backoff_wait
process env c none w = (acked, w)
process env c (some msg) w = with_id env c msg (env.uuid_parse msg.id) w

-- internal/worker/dispatcher.go, `run`: one worker takes the deliveries one after the other.
unfoldable pub run : Env → Config → List (Option Message) → World → List Settlement × World
run env c [] w = ([], w)
run env c (body ∷ bodies) w =
    let (s, w') = process env c body w in let (ss, w'') = run env c bodies w' in (s ∷ ss, w'')
