-- ===== src/World.antt =====
-- The state that the program's parts share, and what the outside answers.
-- A call of PostgreSQL, RabbitMQ or Redis takes time and may fail; which calls fail, and how, is the
-- environment's choice, call by call. The HTTP provider, random numbers and UUIDs are such choices
-- too. The clock (`now`, in nanoseconds) moves by the time that the calls and the sleeps take.
use notification_system.Base.{
  ℕ, suc, ◌+◌, String, List, Option, none, some, Bool, true, false, leb, if◌then◌else◌, max,
}
use notification_system.Base.Int.{ℤ}
use notification_system.Domain.Errors.{Result, ok, err}
use notification_system.Domain.Notification.{Notification}
use notification_system.Domain.Template.{Template}
use notification_system.CircuitBreaker.{CircuitBreaker}

-- `answered`: the call went through. `refused`: it had no effect and returned this error.
-- `unread`: it had its effect, and then its result could not be read.
pub data Verdict : Type 0 where
  answered : Verdict
  refused unread : String → Verdict

pub record Answer : Type 0 where
  pub took : ℕ
  pub verdict : Verdict

-- What becomes of a request to the provider: the configured URL makes no request, `http.Client.Do`
-- returns an error, or a status code comes back with the body's first 1024 bytes.
pub data Reply : Type 0 where
  unbuilt : String → Reply
  no_reply : String → Reply
  replied : ℕ → String → Reply

-- internal/provider/webhook.go, `ProviderResponse` and `webhookRequest`.
pub record ProviderResponse : Type 0 where
  pub message_id : String
  pub status : String
  pub timestamp : String

pub record WebhookRequest : Type 0 where
  pub to : String
  pub channel : String
  pub content : String

-- internal/queue/producer.go, `message`, and internal/worker/processor.go, `QueueMessage`: the same
-- fields under the same JSON names.
pub record Message : Type 0 where
  pub id : String
  pub recipient : String
  pub channel : String
  pub content : String
  pub subject : Option String
  pub priority : String
  pub metadata : Option String

-- The client library's delivery modes.
pub data DeliveryMode : Type 0 where
  transient persistent : DeliveryMode

-- `amqp.Publishing`, with the routing key that it was published under. The body is the message that
-- it encodes.
pub record Publishing : Type 0 where
  pub routing_key : String
  pub content_type : String
  pub delivery_mode : DeliveryMode
  pub correlation_id : String
  pub priority : ℕ
  pub message_id : String
  pub body : Message

-- internal/pubsub/redis.go, `StatusUpdate`; the timestamp is the time that it formats.
pub record StatusUpdate : Type 0 where
  pub notification_id : String
  pub status : String
  pub channel : String
  pub timestamp : ℕ

-- The hash that the token bucket's script keeps, in millionths of a token and in microseconds, and
-- the time at which the server drops it.
pub record Bucket : Type 0 where
  pub tokens : ℤ
  pub last : ℕ
  pub expires : ℕ

-- `cancelled_at` and `correlation_id` are what the context carries; `jsonb` and `timestamptz` are what
-- PostgreSQL keeps of a text of JSON and of a time.
pub record Env : Type 0 where
  pub answer : ℕ → Answer
  pub reply : ℕ → Reply
  pub jitter : ℕ → ℕ
  pub range : ℕ → List (String × String) → List (String × String)
  pub new_uuid : ℕ → ℕ
  pub uuid_string : ℕ → String
  pub uuid_parse : String → Option ℕ
  pub parse_reply : String → Option ProviderResponse
  pub violation : String
  pub cancelled_at : Option ℕ
  pub correlation_id : Option String
  pub jsonb : String → String
  pub timestamptz : ℕ → ℕ

pub record World : Type 0 where
  pub now : ℕ
  pub calls : ℕ
  pub drawn : ℕ
  pub rows : List Notification
  pub templates : List Template
  pub queue : List Publishing
  pub updates : List StatusUpdate
  pub requests : List WebhookRequest
  pub breaker : CircuitBreaker
  pub bucket : Option Bucket

abbrev pub Action {ℓ} : Type ℓ → Type ℓ
Action A = World → Result A × World

abbrev pub bind {ℓ κ} :
    {A : Type ℓ} {B : Type κ} → Result A × World → (A → Action B) → Result B × World
bind (ok a, w) f = f a w
bind (err e, w) f = (err e, w)

infixl 5 ◌>>=◌
abbrev pub ◌>>=◌ {ℓ κ} : {A : Type ℓ} {B : Type κ} → Action A → (A → Action B) → Action B
◌>>=◌ m f w = bind (m w) f

-- One call of the outside: what it answers, and the world with the time that it took.
unfoldable pub call : Env → World → Verdict × World
call env w =
    let a = env.answer w.calls in
    (a.verdict, record w { now = w.now + a.took; calls = suc w.calls })

-- `uuid.New`.
unfoldable pub draw_uuid : Env → World → ℕ × World
draw_uuid env w = (env.new_uuid w.drawn, record w { drawn = suc w.drawn })

-- A wait until time `t`, cut short if the context is cancelled first: whether it was not, and the
-- world when it ends.
unfoldable pub sleep_until : Env → ℕ → World → Bool × World
sleep_until env t w = elim env.cancelled_at [
  | none ↦ (true, record w { now = max w.now t })
  | some c ↦
      if leb c w.now
      then (false, w)
      else if leb t c
      then (true, record w { now = max w.now t })
      else (false, record w { now = c })
]
