-- ===== src/Domain/Notification.antt =====
-- internal/domain/notification.go: the constants and the records. A `uuid.UUID` is its 128-bit
-- value, `uuid.Nil` is 0; a time is a number of
-- nanoseconds; a nil pointer is `none`.
use notification_system.Base.{ℕ, String, List, Option, Bool, ◌||◌, str_eq, ◌≢◌, sym, eq_iff}

abbrev pub channel_sms : String
channel_sms = "sms"

abbrev pub channel_email : String
channel_email = "email"

abbrev pub channel_push : String
channel_push = "push"

abbrev pub status_pending : String
status_pending = "pending"

abbrev pub status_queued : String
status_queued = "queued"

abbrev pub status_processing : String
status_processing = "processing"

abbrev pub status_sent : String
status_sent = "sent"

abbrev pub status_delivered : String
status_delivered = "delivered"

abbrev pub status_failed : String
status_failed = "failed"

abbrev pub status_cancelled : String
status_cancelled = "cancelled"

abbrev pub priority_high : String
priority_high = "high"

abbrev pub priority_normal : String
priority_normal = "normal"

abbrev pub priority_low : String
priority_low = "low"

abbrev pub max_sms_content_length : ℕ
max_sms_content_length = 160

abbrev pub max_email_content_length : ℕ
max_email_content_length = 100000

abbrev pub max_push_content_length : ℕ
max_push_content_length = 4096

abbrev pub max_batch_size : ℕ
max_batch_size = 1000

pub record Notification : Type 0 where
  pub id : ℕ
  pub batch_id : Option ℕ
  pub idempotency_key : Option String
  pub recipient : String
  pub channel : String
  pub content : String
  pub subject : Option String
  pub priority : String
  pub status : String
  pub provider_message_id : Option String
  pub retry_count : ℕ
  pub max_retries : ℕ
  pub next_retry_at : Option ℕ
  pub scheduled_at : Option ℕ
  pub sent_at : Option ℕ
  pub failed_at : Option ℕ
  pub error_message : Option String
  pub metadata : Option String
  pub created_at : ℕ
  pub updated_at : ℕ

-- `variables` lists the map's entries, each key once.
pub record CreateNotificationRequest : Type 0 where
  pub idempotency_key : Option String
  pub recipient : String
  pub channel : String
  pub content : String
  pub subject : Option String
  pub priority : String
  pub scheduled_at : Option ℕ
  pub metadata : Option String
  pub template_id : Option ℕ
  pub variables : List (String × String)

pub record BatchCreateRequest : Type 0 where
  pub notifications : List CreateNotificationRequest

unfoldable pub is_valid_channel : String → Bool
is_valid_channel ch = str_eq ch channel_sms || str_eq ch channel_email || str_eq ch channel_push

unfoldable pub is_valid_priority : String → Bool
is_valid_priority p = str_eq p priority_high || str_eq p priority_normal || str_eq p priority_low

pub queued-ne-pending : ◌≢◌ {A = String} status_pending status_queued
queued-ne-pending e = cc (sym ((eq_iff status_pending status_queued).1 e))
