-- ===== src/Scenarios.antt =====
-- Concrete states and environments, on which the theorems are applied.
pub mod Requests
pub mod Breaker
pub mod Storage
pub mod Deliveries
pub mod Endpoints
pub mod Composition
pub mod Broker
pub mod Threads
pub mod Batch
pub mod Rendering
pub mod Serving
use notification_system.Base.{
  ℕ, ◌+◌, ◌*◌, ◌/◌, String, List, [], ◌∷◌, Option, none, some, str_eq, decimal, refl, if◌then◌else◌,
}
use notification_system.Domain.Notification.{
  Notification, CreateNotificationRequest, status_pending, is_valid_channel, is_valid_priority,
}
use notification_system.CircuitBreaker.{CircuitBreaker, new}
use notification_system.Worker.Processor.{Config}
use notification_system.Repository.Sql.{is_legal, clashes}
use notification_system.Repository.Tables.{IsTable}
use notification_system.World.{
  Env, World, Verdict, answered, refused, Answer, Reply, replied, Message,
}

-- A request for a text message.
abbrev pub greeting : CreateNotificationRequest
greeting = record {
  idempotency_key = some "k1";
  recipient = "+905551234567";
  channel = "sms";
  content = "Hello";
  subject = none;
  priority = "";
  scheduled_at = none;
  metadata = none;
  template_id = none;
  variables = [];
}

-- A pending text message, created at the time of its id.
abbrev pub pending : ℕ → Notification
pending id = record {
  id = id;
  batch_id = none;
  idempotency_key = none;
  recipient = "+905551234567";
  channel = "sms";
  content = "Hello";
  subject = none;
  priority = "normal";
  status = status_pending;
  provider_message_id = none;
  retry_count = 0;
  max_retries = 3;
  next_retry_at = none;
  scheduled_at = some 500;
  sent_at = none;
  failed_at = none;
  error_message = none;
  metadata = none;
  created_at = id;
  updated_at = id;
}

-- Calls take a millisecond and have this verdict; the provider accepts, and ids are written as
-- decimals, of which "7" and "8" are read back.
abbrev pub outside : Verdict → Env
outside v = record {
  answer = λ k. record { took = 1000000; verdict = v };
  reply = λ k. replied 202 "accepted";
  jitter = λ k. 17;
  range = λ k variables. variables;
  new_uuid = λ k. 100 + k;
  uuid_string = decimal;
  uuid_parse = λ s. if str_eq s "7" then some 7 else if str_eq s "8" then some 8 else none;
  parse_reply = λ body. some (record { message_id = "m1"; status = "accepted"; timestamp = "now" });
  violation = "violates check constraint";
  cancelled_at = none;
  correlation_id = some "c1";
  jsonb = λ s. s;
  timestamptz = λ t. (t + 500) / 1000 * 1000;
}

abbrev pub healthy : Env
healthy = outside answered

-- Redis, PostgreSQL and RabbitMQ answer no call.
abbrev pub down : Env
down = outside (refused "connection refused")

abbrev pub world : List Notification → CircuitBreaker → World
world rows cb = record {
  now = 1000;
  calls = 0;
  drawn = 0;
  rows = rows;
  templates = [];
  queue = [];
  updates = [];
  requests = [];
  breaker = cb;
  bucket = none;
}

abbrev pub two_rows : List Notification
two_rows = pending 7 ∷ pending 8 ∷ []

abbrev pub resting : World
resting = world two_rows (new 0)

abbrev pub delivery : String → Message
delivery id = record {
  id = id;
  recipient = "+905551234567";
  channel = "sms";
  content = "Hello";
  subject = none;
  priority = "normal";
  metadata = none;
}

-- The processors' settings.
abbrev pub config : Config
config = record { rate = 100; max_retries = 5 }

pub two_rows-IsTable : IsTable two_rows
unfolding is_legal clashes is_valid_channel is_valid_priority
two_rows-IsTable = (refl, refl, (refl, refl, tt))
