-- ===== src/Repository/Batches/Created.antt =====
-- The row that the transaction of a batch makes of an item.
use mathlib.Core.Option
use notification_system.Base.{ℕ, none, ◌≡◌, refl, ap, arith, if◌then◌else◌, str_eq}
use notification_system.Domain.Notification.{Notification, status_pending}
use notification_system.World.{Env, World, draw_uuid}
use notification_system.Repository.Notifications.{with_defaults, new_row}

-- `m` is the row that the batch makes of `n`: the JSON and the time in PostgreSQL's form.
pub record IsRowOf (env : Env) (n m : Notification) : Type 0 where
  pub batch : m.batch_id ≡ n.batch_id
  pub key : m.idempotency_key ≡ n.idempotency_key
  pub recipient : m.recipient ≡ n.recipient
  pub channel : m.channel ≡ n.channel
  pub content : m.content ≡ n.content
  pub subject : m.subject ≡ n.subject
  pub priority : m.priority ≡ (if str_eq n.priority "" then "normal" else n.priority)
  pub retries : m.retry_count ≡ n.retry_count
  pub metadata : m.metadata ≡ Option.map env.jsonb n.metadata
  pub scheduled : m.scheduled_at ≡ Option.map env.timestamptz n.scheduled_at
  pub at_once : m.next_retry_at ≡ none
  pub fresh : n.status ≡ "" → m.status ≡ status_pending

pub new_row-IsRowOf :
    (env : Env) (now : ℕ) (n : Notification) (w : World)
    → IsRowOf env n (new_row env now (with_defaults env n w).0)
unfolding new_row with_defaults draw_uuid
new_row-IsRowOf env now n w = record {
  batch = ground arith;
  key = ground arith;
  recipient = ground arith;
  channel = ground arith;
  content = ground arith;
  subject = ground arith;
  priority = ground arith;
  retries = ground arith;
  metadata = refl;
  scheduled = refl;
  at_once = ground arith;
  fresh = λ e. ap (λ s. if str_eq s "" then status_pending else s) e;
}
