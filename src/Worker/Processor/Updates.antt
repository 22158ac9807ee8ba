-- ===== src/Worker/Processor/Updates.antt =====
-- What updates of one row do to it, when every call goes through.
use notification_system.Base.{ℕ, ◌≤◌, String, count, List, none, some, ◌≡◌, refl, ◌∙◌, arith, find}
use notification_system.Domain.Errors.{ok}
use notification_system.Domain.Notification.{Notification, status_processing}
use notification_system.World.{Env, World, answered, WebhookRequest, call}
use notification_system.CircuitBreaker.{closed}
use notification_system.Repository.Sql.{is_valid_status, touched, update}
use notification_system.Repository.Notifications.{has_id, update_status, update_sent, set_sent}
use notification_system.Repository.Tables.{IsTable}
use notification_system.Worker.Processor.{notify}
use notification_system.Worker.Processor.Frames.{Quiet, update_status-Quiet, notify-Quiet}
use notification_system.Repository.Found.{sent-is_legal, update_found, update_status_row}

module _ (env : Env) (healthy : (k : ℕ) → (env.answer k).verdict ≡ answered) where
  -- `sent` has been sent, `n` is the row of `id` in a legal table, the breaker is closed and the
  -- rate limiter's bucket is new.
  pub record Holds (sent : List WebhookRequest) (id : ℕ) (n : Notification) (w : World)
      : Type 0 where
    pub requests : w.requests ≡ sent
    pub row : find (has_id id) w.rows ≡ some n
    pub table : IsTable w.rows
    pub closed : w.breaker.state ≡ closed
    pub fresh : w.bucket ≡ none

  Holds-Quiet :
      {sent : List WebhookRequest} {id : ℕ} {n m : Notification} {w w' : World}
      → Quiet w w'
      → find (has_id id) w'.rows ≡ some m
      → IsTable w'.rows
      → Holds sent id n w
      → Holds sent id m w'
  Holds-Quiet q row table h = record {
    requests = q.requests ∙ h.requests;
    row = row;
    table = table;
    closed = rw (q.breaker) h.closed;
    fresh = q.bucket ∙ h.fresh;
  }

  pub notify-rows :
      (id : ℕ) (status channel : String) (w : World)
      → (notify env id status channel w).rows ≡ w.rows
  unfolding notify call
  notify-rows id status channel w = ground arith

  pub notify-Holds :
      {sent : List WebhookRequest} {id : ℕ} {n : Notification} (i : ℕ) (status channel : String)
      (w : World)
      → Holds sent id n w
      → Holds sent id n (notify env i status channel w)
  notify-Holds i status channel w h =
      let same = notify-rows i status channel w in
      Holds-Quiet (notify-Quiet env i status channel w) (rw same h.row) (rw same h.table) h

  pub mark-Holds :
      {sent : List WebhookRequest} (id : ℕ) (n : Notification) (w : World)
      → Holds sent id n w
      → ((update_status env id status_processing w).0 ≡ ok tt)
        × Holds sent id
            (touched (call env w).1.now (λ m. record m { status = status_processing }) n)
            (update_status env id status_processing w).1
  mark-Holds id n w h =
      let (fine, h') =
        update_status_row env healthy id status_processing n w (unfold is_valid_status in refl)
          (record { row = h.row; table = h.table }) in
      (fine, Holds-Quiet (update_status-Quiet env id status_processing w) h'.row h'.table h)

  -- What is found when the delivery has been accepted.
  pub sent_row :
      (id : ℕ) (message_id : String) (n : Notification) (w : World)
      → count message_id ≤ 255
      → find (has_id id) w.rows ≡ some n
      → IsTable w.rows
      → find (has_id id) (update_sent env id message_id w).1.rows
        ≡ some (touched (call env w).1.now ((set_sent id message_id).set (call env w).1.now) n)
  unfolding update_sent
  sent_row id message_id n w short row table =
      (update_found env healthy "updating to sent" (set_sent id message_id).set id w n
        (λ now m l. sent-is_legal message_id now m short l) (λ now m. refl) table row).1

  pub update_sent-requests :
      (id : ℕ) (message_id : String) (w : World)
      → (update_sent env id message_id w).1.requests ≡ w.requests
  unfolding update_sent update call
  update_sent-requests id message_id w = ground arith
