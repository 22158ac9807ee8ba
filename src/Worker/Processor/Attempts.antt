-- ===== src/Worker/Processor/Attempts.antt =====
-- What one delivery does to the row's retry count and to the requests that have left, when the calls
-- of the database go through, whatever the provider, the breaker and the rate limiter answer.
use notification_system.Base.{
  ℕ, suc, ◌≤◌, ◌<◌, String, List, [], ◌∷◌, ◌≡◌, ◌≢◌, refl, ap, ◌∙◌, arith, length, length-append,
  ltb, ltb→lt, Bool-cases, inl, inr,
}
use notification_system.Domain.Notification.{Notification, status_failed, status_sent}
use notification_system.World.{
  Env, World, answered, Message, Reply, unbuilt, no_reply, replied, call,
}
use notification_system.Provider.{
  Sent, unexpected, accepted, retryable, non_retryable, request_of, requested,
}
use notification_system.Repository.Sql.{is_legal, update}
use notification_system.Repository.Notifications.{
  update_sent, update_failed, increment_retry, set_retry,
}
use notification_system.Repository.Lifecycle.{apply, apply-IsTable, retries}
use notification_system.Worker.Processor.{
  Config, Settlement, acked, requeued, notify, conclude, give_up, retry, failed, succeeded,
  add_time,
}
use notification_system.Worker.Backoff.{calculate_backoff}
use notification_system.Worker.Processor.Frames.{notify-Quiet}
use notification_system.Repository.Found.{HasRow, HasRow-same, update_found}
use notification_system.Worker.Processor.Updates.{update_sent-requests}

-- How a delivery can end for a notification with `count` retries behind it, when `sent` requests had
-- left before: settled for good, with at most one more request; put back with nothing sent and
-- nothing counted; or put back with at most one more request and a retry counted.
pub data Attempt (c : Config) (id retry_count sent : ℕ) : Settlement × World → Type 0 where
  ended :
      (s : Settlement) (w : World)
      → s ≢ requeued
      → length w.requests ≤ suc sent
      → Attempt c id retry_count sent (s, w)
  put_back :
      (n : Notification) (w : World)
      → HasRow id n w
      → n.retry_count ≡ retry_count
      → length w.requests ≤ sent
      → Attempt c id retry_count sent (requeued, w)
  counted :
      (n : Notification) (w : World)
      → HasRow id n w
      → n.retry_count ≡ suc retry_count
      → retry_count < c.max_retries
      → length w.requests ≤ suc sent
      → Attempt c id retry_count sent (requeued, w)

update_failed-requests :
    (env : Env) (id : ℕ) (text : String) (w : World)
    → (update_failed env id text w).1.requests ≡ w.requests
unfolding update_failed update call
update_failed-requests env id text w = ground arith

increment_retry-requests :
    (env : Env) (id next : ℕ) (w : World) → (increment_retry env id next w).1.requests ≡ w.requests
unfolding increment_retry update call
increment_retry-requests env id next w = ground arith

-- A request leaves only for an answer of the provider.
pub length-requested :
    (n : Notification) (reply : Reply) (sent : List _)
    → length (requested n reply sent) ≤ suc (length sent)
unfolding requested
length-requested n (unbuilt m) sent = omega arith
length-requested n (no_reply m) sent = ground (arith, length-append sent (request_of n ∷ []))
length-requested n (replied code body) sent = ground (arith, length-append sent (request_of n ∷ []))

give_up-requests :
    (env : Env) (id : ℕ) (msg : Message) (text : String) (w : World)
    → (give_up env id msg text w).1.requests ≡ w.requests
unfolding give_up
give_up-requests env id msg text w =
    (notify-Quiet env id status_failed msg.channel (update_failed env id text w).1).requests
    ∙ update_failed-requests env id text w

give_up-settled :
    (env : Env) (id : ℕ) (msg : Message) (text : String) (w : World)
    → (give_up env id msg text w).0 ≢ requeued
unfolding give_up
give_up-settled env id msg text w = λ e. cc

module _ (env : Env) (healthy : (k : ℕ) → (env.answer k).verdict ≡ answered) (c : Config) (id : ℕ)
    (msg : Message) (n : Notification) where
  increment_row :
      (next : ℕ) (m : Notification) (w : World)
      → HasRow id m w
      → (m' : Notification) × (HasRow id m' (increment_retry env id next w).1)
        × (m'.retry_count ≡ suc m.retry_count)
  unfolding increment_retry apply
  increment_row next m w h =
      let set = (set_retry id (env.timestamptz next)).set in
      let (fine, row) =
        update_found env healthy "incrementing retry" set id w m (λ now m' l. unfold is_legal in l)
          (λ now m'. refl) h.table h.row in
      (_, record { row = row; table = apply-IsTable env (retries id next) w h.table }, refl)

  give_up-Attempt :
      (text : String) (w : World) {sent : ℕ}
      → length w.requests ≤ suc sent
      → Attempt c id n.retry_count sent (give_up env id msg text w)
  give_up-Attempt text w h =
      ended (give_up env id msg text w).0 (give_up env id msg text w).1
        (give_up-settled env id msg text w) (rw (give_up-requests env id msg text w) h)

  retry-Attempt :
      (message : String) (m : Notification) (w : World) {sent : ℕ}
      → HasRow id m w
      → m.retry_count ≡ n.retry_count
      → length w.requests ≤ suc sent
      → Attempt c id n.retry_count sent (retry env c id msg n message w)
  unfolding retry
  retry-Attempt message m w h same few = elim (Bool-cases (ltb n.retry_count c.max_retries)) [
    | inr over ↦ rw over (give_up-Attempt _ w few)
    | inl more ↦
        let next = add_time w.now (calculate_backoff n.retry_count (env.jitter w.calls)) in
        let (m', row, more') = increment_row next m w h in
        rw more (
          counted m' (increment_retry env id next w).1 row (more' ∙ ap suc same)
            (ltb→lt n.retry_count c.max_retries more)
            (rw (increment_retry-requests env id next w) few))
  ]

  pub conclude-Attempt :
      (s : Sent) (m : Notification) (w : World) {sent : ℕ}
      → HasRow id m w
      → m.retry_count ≡ n.retry_count
      → length w.requests ≤ suc sent
      → ((text : String) → s ≡ unexpected text → length w.requests ≤ sent)
      → Attempt c id n.retry_count sent (conclude env c id msg n (s, w))
  unfolding conclude failed succeeded
  conclude-Attempt (accepted r) m w h same few none_sent =
      let w' = succeeded w in
      let after = (update_sent env id r.message_id w').1 in
      ended acked (notify env id status_sent msg.channel after) (λ e. cc)
        (rw
          (
            (notify-Quiet env id status_sent msg.channel after).requests,
            update_sent-requests env healthy id r.message_id w',
          )
          few)
  conclude-Attempt (retryable code text) m w h same few none_sent =
      retry-Attempt text m (failed w) (HasRow-same refl h) same few
  conclude-Attempt (non_retryable code text) m w h same few none_sent =
      give_up-Attempt _ (failed w) few
  conclude-Attempt (unexpected text) m w h same few none_sent =
      put_back m (failed w) (HasRow-same refl h) same (none_sent text refl)
