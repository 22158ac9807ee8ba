-- ===== src/Scenarios/Deliveries.antt =====
-- The theorems on the processor, at concrete deliveries.
use notification_system.Base.{
  ◌↔◌, ◌⊎◌, ◌≤◌, ℕ, ◌*◌, [], ◌∷◌, ◌++◌, some, ◌≡◌, ◌≢◌, refl, true, arith,
}
use notification_system.CircuitBreaker
use notification_system.CircuitBreaker.{
  CircuitBreaker, State, closed, opened, half_open, second, new,
}
use notification_system.World.{Env, World, ProviderResponse, call}
use notification_system.RateLimiter.Wait.{passed, cancelled, allow, select, wait}
use notification_system.RateLimiter.Bucket.{refill, available, run_script}
use notification_system.Base.Int.{pos, ◌+ℤ◌}
use notification_system.Worker.Processor.{
  acked, dead_lettered, requeued, conclude, unsettled, dispatch, process,
}
use notification_system.Worker.Processor.Settled.{process_settles}
use notification_system.Domain.Notification.{Notification, is_valid_channel, is_valid_priority}
use notification_system.Provider.{classify, accepted, retryable, request_of}
use notification_system.Repository.Sql.{is_legal, clashes}
use notification_system.Repository.Tables.{IsTable}
use notification_system.Worker.Processor.Delivery.{IsDelivered, process_delivers}
use notification_system.Provider.Classes.{class, success, final, transient}
use notification_system.Worker.Processor.Outcomes.{conclude-settlement_iff}
use notification_system.Worker.Processor.Frames.{probe_lost}
use notification_system.Scenarios.{config, healthy, pending, two_rows, resting, world, delivery}

process_settles_example : (process healthy config (some (delivery "7")) resting).0 ≢ unsettled
process_settles_example = process_settles healthy config (some (delivery "7")) resting

-- The timeout of an open breaker has run out, the rate limiter's bucket is empty, and the context
-- is cancelled.
abbrev due : World
due = record (world two_rows (record (new 0) { state = opened; last_failure = 1 })) {
  now = 31 * second;
  bucket = some (record { tokens = pos 0; last = 31000000; expires = 32000000 });
}

abbrev stopping : Env
stopping = record healthy { cancelled_at = some 5 }

due-allowed : (CircuitBreaker.allow due.now due.breaker).1 ≡ true
unfolding CircuitBreaker.allow new
due-allowed = refl

abbrev after_allow : World
after_allow = record due { breaker = (CircuitBreaker.allow due.now due.breaker).0 }

waits : (wait stopping config.rate after_allow).0 ≡ cancelled
unfolding wait allow call run_script available refill select ◌+ℤ◌
waits = refl

wait_fails : (wait stopping config.rate after_allow).0 ≢ passed
wait_fails = λ e. cc (e, waits)

probe_lost_example :
    ((dispatch stopping config 7 (delivery "7") (pending 7) due).1.breaker
      ≡ (CircuitBreaker.allow due.now due.breaker).0)
    × ((dispatch stopping config 7 (delivery "7") (pending 7) due).1.breaker.state ≡ half_open)
probe_lost_example =
    probe_lost stopping config 7 (delivery "7") (pending 7) due refl due-allowed wait_fails

-- A notification that was cancelled while its message was in the queue.
abbrev cancelled_row : Notification
cancelled_row = record (pending 7) { status = "cancelled" }

abbrev after_cancel : World
after_cancel = world (cancelled_row ∷ []) (new 0)

abbrev reply : ProviderResponse
reply = record { message_id = "m1"; status = "accepted"; timestamp = "now" }

reply_accepted : (k : ℕ) → classify healthy (healthy.reply k) ≡ accepted reply
unfolding classify
reply_accepted k = refl

cancelled_row-IsTable : IsTable (cancelled_row ∷ [])
unfolding is_legal clashes is_valid_channel is_valid_priority
cancelled_row-IsTable = (refl, refl, tt)

new_closed : (new 0).state ≡ closed
unfolding new
new_closed = refl

process_delivers_example :
    IsDelivered 7 reply
      ([] ++ request_of cancelled_row ∷ [])
      (process healthy config (some (delivery "7")) after_cancel)
process_delivers_example =
    process_delivers healthy config (delivery "7") 7 cancelled_row reply after_cancel (λ k. refl)
      reply_accepted (omega arith) (omega arith) refl refl refl cancelled_row-IsTable new_closed
      refl

-- A notification that has had its five retries.
abbrev worn_out : Notification
worn_out = record (pending 7) { retry_count = 5 }

conclude-settlement_iff_example :
    let s = retryable 503 "busy" in
    let o = (conclude healthy config 7 (delivery "7") worn_out (s, resting)).0 in
    ((o ≡ acked) ↔ (class s ≡ success))
    × ((o ≡ dead_lettered) ↔ (
        (class s ≡ final) ⊎ ((class s ≡ transient) × (config.max_retries ≤ worn_out.retry_count))))
    × ((o ≡ acked) ⊎ ((o ≡ dead_lettered) ⊎ (o ≡ requeued)))
conclude-settlement_iff_example =
    conclude-settlement_iff healthy config 7 (delivery "7") worn_out (retryable 503 "busy") resting
