-- ===== src/Service/BatchCreation.antt =====
-- What a batch that is accepted leaves behind, when every call goes through.
use mathlib.Core.Option
use notification_system.Base.{
  if◌then◌else◌, str_eq, ℕ, List, ◌++◌, map, Option, some, true, ◌≡◌, ◌⊎◌, filter, All, Each,
}
use notification_system.Domain.Notification.{
  Notification, CreateNotificationRequest, status_queued, status_pending,
}
use notification_system.World.{Env, World}
use notification_system.Repository.Batches
use notification_system.Repository.Tables.{IsTable}
use notification_system.Repository.Distinct.{Distinct}
use notification_system.Queue.Producer.{publishing}
use notification_system.Service.{is_future}
use notification_system.Service.Enqueued.{is_queued, IsStored}

-- `n` is the notification of the request `r` in the batch, its JSON and its time in PostgreSQL's form:
-- queued, or pending because it is for a time that was to come.
pub record IsItemOf (env : Env) (batch : ℕ) (r : CreateNotificationRequest) (n : Notification)
    : Type 0 where
  pub batch_id : n.batch_id ≡ some batch
  pub key : n.idempotency_key ≡ r.idempotency_key
  pub recipient : n.recipient ≡ r.recipient
  pub channel : n.channel ≡ r.channel
  pub content : n.content ≡ r.content
  pub subject : n.subject ≡ r.subject
  pub priority : n.priority ≡ (if str_eq r.priority "" then "normal" else r.priority)
  pub metadata : n.metadata ≡ Option.map env.jsonb r.metadata
  pub scheduled : n.scheduled_at ≡ Option.map env.timestamptz r.scheduled_at
  pub status :
      (n.status ≡ status_queued)
      ⊎ ((n.status ≡ status_pending) × (t : ℕ) × (is_future t n.scheduled_at ≡ true))

-- How an accepted batch ends.
pub record IsAccepted (env : Env) (rs : List CreateNotificationRequest) (w : World) (batch : ℕ)
    (ns : List Notification) (w' : World) : Type 0 where
  pub items : Each (IsItemOf env batch) rs ns
  pub stored : All (IsStored w') ns
  pub queue : w'.queue ≡ w.queue ++ map (publishing env) (filter is_queued ns)
  pub table : IsTable w'.rows
