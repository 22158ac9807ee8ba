-- ===== src/Repository/Rows.antt =====
-- internal/repository/postgres/notification.go, `scanNotification`: a row's columns, and the
-- notification that is made of them. A column that may be NULL comes with whether it is valid.
use notification_system.Base.{
  ℕ, String, Option, none, some, Bool, true, false, ◌≡◌, refl, ap, if◌then◌else◌,
}
use notification_system.Domain.Errors.{Result, ok, err}
use notification_system.Domain.Notification.{Notification}

-- `sql.NullString` and `sql.NullTime`.
pub record Null {ℓ} (A : Type ℓ) : Type ℓ where
  pub value : A
  pub valid : Bool

pub record Columns : Type 0 where
  pub id : ℕ
  pub batch_id : Null String
  pub idempotency_key : Null String
  pub recipient : String
  pub channel : String
  pub content : String
  pub subject : Null String
  pub priority : String
  pub status : String
  pub provider_message_id : Null String
  pub retry_count : ℕ
  pub max_retries : ℕ
  pub next_retry_at : Null ℕ
  pub scheduled_at : Null ℕ
  pub sent_at : Null ℕ
  pub failed_at : Null ℕ
  pub error_message : Null String
  pub metadata : Option String
  pub created_at : ℕ
  pub updated_at : ℕ

unfoldable pub pointer {ℓ} : {A : Type ℓ} → Null A → Option A
pointer c = if c.valid then some c.value else none

-- `uuid.Parse`, whose error is dropped: `uuid.Nil` is what it leaves.
unfoldable pub parsed : (String → Option ℕ) → String → ℕ
parsed uuid_parse text = elim (uuid_parse text) [ none ↦ 0 | some id ↦ id ]

unfoldable pub batch : (String → Option ℕ) → Null String → Option ℕ
unfolding parsed
batch uuid_parse c = if c.valid then some (parsed uuid_parse c.value) else none

-- `Scan` fails or fills the columns.
unfoldable pub scan_notification : (String → Option ℕ) → Result Columns → Result Notification
unfolding pointer batch
scan_notification uuid_parse (err e) = err e
scan_notification uuid_parse (ok c) = ok (record {
  id = c.id;
  batch_id = batch uuid_parse c.batch_id;
  idempotency_key = pointer c.idempotency_key;
  recipient = c.recipient;
  channel = c.channel;
  content = c.content;
  subject = pointer c.subject;
  priority = c.priority;
  status = c.status;
  provider_message_id = pointer c.provider_message_id;
  retry_count = c.retry_count;
  max_retries = c.max_retries;
  next_retry_at = pointer c.next_retry_at;
  scheduled_at = pointer c.scheduled_at;
  sent_at = pointer c.sent_at;
  failed_at = pointer c.failed_at;
  error_message = pointer c.error_message;
  metadata = c.metadata;
  created_at = c.created_at;
  updated_at = c.updated_at;
})

-- What the driver hands over of a stored value: NULL with the type's zero value, or the value.
unfoldable pub column {ℓ} : {A : Type ℓ} → A → Option A → Null A
column zero_value none = record { value = zero_value; valid = false }
column zero_value (some a) = record { value = a; valid = true }

text_of : (ℕ → String) → Option ℕ → Null String
unfolding column
text_of uuid_string none = record { value = ""; valid = false }
text_of uuid_string (some id) = record { value = uuid_string id; valid = true }

-- The columns of a stored notification.
pub columns_of : (ℕ → String) → Notification → Columns
columns_of uuid_string n = record {
  id = n.id;
  batch_id = text_of uuid_string n.batch_id;
  idempotency_key = column "" n.idempotency_key;
  recipient = n.recipient;
  channel = n.channel;
  content = n.content;
  subject = column "" n.subject;
  priority = n.priority;
  status = n.status;
  provider_message_id = column "" n.provider_message_id;
  retry_count = n.retry_count;
  max_retries = n.max_retries;
  next_retry_at = column 0 n.next_retry_at;
  scheduled_at = column 0 n.scheduled_at;
  sent_at = column 0 n.sent_at;
  failed_at = column 0 n.failed_at;
  error_message = column "" n.error_message;
  metadata = n.metadata;
  created_at = n.created_at;
  updated_at = n.updated_at;
}

pub pointer-column {ℓ} : {A : Type ℓ} (z : A) (o : Option A) → pointer (column z o) ≡ o
unfolding pointer column
pointer-column z none = refl
pointer-column z (some a) = refl

batch-text_of :
    (uuid_parse : String → Option ℕ) (uuid_string : ℕ → String) (o : Option ℕ)
    → ((i : ℕ) → uuid_parse (uuid_string i) ≡ some i)
    → batch uuid_parse (text_of uuid_string o) ≡ o
unfolding batch text_of parsed
batch-text_of uuid_parse uuid_string none h = refl
batch-text_of uuid_parse uuid_string (some id) h =
    ap (λ o. some (elim o [ none ↦ 0 | some i ↦ i ])) (h id)

-- A stored notification is scanned as it is: NULL as nil, and every other value as itself, an empty
-- text and a zero time included, provided that a printed UUID is parsed as it was.
pub scan_notification-columns_of :
    (uuid_parse : String → Option ℕ) (uuid_string : ℕ → String) (n : Notification)
    → ((i : ℕ) → uuid_parse (uuid_string i) ≡ some i)
    → scan_notification uuid_parse (ok (columns_of uuid_string n)) ≡ ok n
unfolding scan_notification columns_of
scan_notification-columns_of uuid_parse uuid_string n h =
    rw
      (
        batch-text_of uuid_parse uuid_string n.batch_id h,
        pointer-column "" n.idempotency_key,
        pointer-column "" n.subject,
        pointer-column "" n.provider_message_id,
        pointer-column 0 n.next_retry_at,
        pointer-column 0 n.scheduled_at,
        pointer-column 0 n.sent_at,
        pointer-column 0 n.failed_at,
        pointer-column "" n.error_message,
      )
      refl
