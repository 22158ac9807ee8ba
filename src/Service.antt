-- ===== src/Service.antt =====
-- internal/service/notification.go.
pub mod Failures
pub mod Creation
pub mod Enqueued
pub mod BatchCreation
pub mod Templated
use notification_system.Base.{
  ℕ, ◌+◌, ◌*◌, String, List, [], ◌∷◌, map, Option, none, some, Bool, false, ltb, if◌then◌else◌,
}
use notification_system.Domain.Errors.{Result, ok, err, Error}
use notification_system.Domain.Notification.{
  Notification, CreateNotificationRequest, BatchCreateRequest, status_queued,
}
use notification_system.Domain.Validate.{validate, validate_batch}
use notification_system.Domain.Template.{Template, render}
use notification_system.World.{Env, World, Action, bind, ◌>>=◌, draw_uuid}
use notification_system.Repository.Notifications
use notification_system.Repository.Batches
use notification_system.Repository.Templates
use notification_system.Queue.Producer.{publish}

-- The struct literal of `Create` and of `CreateBatch`; the fields that it does not name are zero.
unfoldable pub notification_of : Option ℕ → CreateNotificationRequest → Notification
notification_of batch r = record {
  id = 0;
  batch_id = batch;
  idempotency_key = r.idempotency_key;
  recipient = r.recipient;
  channel = r.channel;
  content = r.content;
  subject = r.subject;
  priority = r.priority;
  status = "";
  provider_message_id = none;
  retry_count = 0;
  max_retries = 0;
  next_retry_at = none;
  scheduled_at = r.scheduled_at;
  sent_at = none;
  failed_at = none;
  error_message = none;
  metadata = r.metadata;
  created_at = 0;
  updated_at = 0;
}

-- `n.ScheduledAt != nil && n.ScheduledAt.After(time.Now())`
unfoldable pub is_future : ℕ → Option ℕ → Bool
is_future now none = false
is_future now (some t) = ltb now t

filled : CreateNotificationRequest → String × Option String → CreateNotificationRequest
filled r (content, none) = record r { content = content }
filled r (content, some s) = record r { content = content; subject = some s }

-- The template's content and subject in place of the request's.
apply_template : Env → CreateNotificationRequest → Template → Action CreateNotificationRequest
apply_template env r t w = (
  ok (
      filled r
        (render t (env.range (2 * w.calls) r.variables) (env.range (2 * w.calls + 1) r.variables))),
  w,
)

unfoldable pub resolve_template : Env → CreateNotificationRequest → Action CreateNotificationRequest
unfolding apply_template filled
resolve_template env r w = elim r.template_id [
  | none ↦ (ok r, w)
  | some id ↦ (Templates.get_by_id env id >>= apply_template env r) w
]

queued_after : Notification → Result (Unit {0}) × World → Notification × World
queued_after n (ok _, w) = (record n { status = status_queued }, w)
queued_after n (err e, w) = (n, w)

published_after : Env → Notification → Result (Unit {0}) × World → Notification × World
published_after env n (ok _, w) =
    queued_after n (Notifications.update_status env n.id status_queued w)
published_after env n (err e, w) = (n, w)

-- Publishing and marking as queued, unless the notification is for later; errors are only logged.
unfoldable pub enqueue : Env → Notification → World → Notification × World
unfolding published_after queued_after is_future
enqueue env n w =
    if is_future w.now n.scheduled_at then (n, w) else published_after env n (publish env n w)

unfoldable pub enqueued : Env → Notification → Action Notification
enqueued env n w = let (n', w') = enqueue env n w in (ok n', w')

unfoldable pub create_valid : Env → CreateNotificationRequest → Option Error → Action Notification
unfolding enqueued
create_valid env r (some e) w = (err e, w)
create_valid env r none w =
    (resolve_template env r
        >>= (λ r'. Notifications.create env (notification_of none r'))
        >>= enqueued env)
      w

unfoldable pub create : Env → CreateNotificationRequest → Action Notification
unfolding create_valid
create env r w = let (r', e) = validate r in create_valid env r' e w

-- The loop over the batch.
pub enqueue_all : Env → List Notification → World → List Notification × World
enqueue_all env [] w = ([], w)
enqueue_all env (n ∷ ns) w =
    let (n', w') = enqueue env n w in let (ns', w'') = enqueue_all env ns w' in (n' ∷ ns', w'')

enqueued_batch : Env → ℕ → List Notification → Action (ℕ × List Notification)
enqueued_batch env batch ns w = let (ns', w') = enqueue_all env ns w in (ok (batch, ns'), w')

unfoldable pub create_valid_batch :
    Env → BatchCreateRequest → Option Error → Action (ℕ × List Notification)
unfolding enqueued_batch enqueue_all
create_valid_batch env b (some e) w = (err e, w)
create_valid_batch env b none w =
    let (batch, w') = draw_uuid env w in
    bind (Batches.create_batch env (map (notification_of (some batch)) b.notifications) w')
      (enqueued_batch env batch)

unfoldable pub create_batch : Env → BatchCreateRequest → Action (ℕ × List Notification)
unfolding create_valid_batch
create_batch env b w = let (b', e) = validate_batch b in create_valid_batch env b' e w

unfoldable pub get_by_id : Env → ℕ → Action Notification
get_by_id env id = Notifications.get_by_id env id

unfoldable pub get_by_batch_id : Env → ℕ → Action (List Notification)
get_by_batch_id env batch = Notifications.get_by_batch_id env batch

unfoldable pub cancel : Env → ℕ → Action Notification
cancel env id = Notifications.cancel env id >>= λ _. Notifications.get_by_id env id
