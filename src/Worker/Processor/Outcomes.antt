-- ===== src/Worker/Processor/Outcomes.antt =====
-- How a delivery is settled once the provider has answered.
use notification_system.Base.{ℕ, ◌≡◌, ◌↔◌, ◌⊎◌, ◌≤◌, arith}
use notification_system.Domain.Notification.{Notification}
use notification_system.World.{Env, World, Message}
use notification_system.Provider.{Sent, unexpected, accepted, retryable, non_retryable}
use notification_system.Provider.Classes.{class, success, transient, final}
use notification_system.Worker.Processor.{Config, acked, requeued, dead_lettered, conclude, give_up}

-- Once the provider has answered, the delivery is acknowledged exactly when it accepted, and goes to
-- the dead letter queue exactly when it refused for good, or when the failure is worth a retry and
-- the notification has had its retries; otherwise it is put back.
pub conclude-settlement_iff :
    (env : Env) (c : Config) (id : ℕ) (msg : Message) (n : Notification) (s : Sent) (w : World)
    → (((conclude env c id msg n (s, w)).0 ≡ acked) ↔ (class s ≡ success))
      × (((conclude env c id msg n (s, w)).0 ≡ dead_lettered)
          ↔ ((class s ≡ final) ⊎ ((class s ≡ transient) × (c.max_retries ≤ n.retry_count))))
      × (((conclude env c id msg n (s, w)).0 ≡ acked)
          ⊎ (((conclude env c id msg n (s, w)).0 ≡ dead_lettered)
              ⊎ ((conclude env c id msg n (s, w)).0 ≡ requeued)))
unfolding conclude give_up
conclude-settlement_iff env c id msg n (accepted r) w = ground arith
conclude-settlement_iff env c id msg n (retryable code m) w = ground arith
conclude-settlement_iff env c id msg n (non_retryable code m) w = ground arith
conclude-settlement_iff env c id msg n (unexpected m) w = ground arith
