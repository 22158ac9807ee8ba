-- ===== src/Program/Wiring.antt =====
-- internal/config/config.go, and what main makes of a configuration: a rate limiter, a breaker, a
-- processor and a dispatcher for each channel, with their constructors. `env.Parse` is what the
-- environment's variables give; a negative number among them is not modelled.
pub mod Consumed
use notification_system.Base.{
  length, get_elem?, ◌++◌, ℕ, ◌*◌, String, List, [], ◌∷◌, map, Option, none, some, Bool, true, ◌<>◌,
  ◌≡◌, refl, ◌⊎◌, inl, inr, find, str_eq,
}
use notification_system.Base.Dict.{get, put}
use notification_system.Domain.Errors.{Result, ok, err, error_text, wrapped}
use notification_system.Domain.Notification.{
  channel_sms, channel_email, channel_push, is_valid_channel,
}
use notification_system.CircuitBreaker.{CircuitBreaker, new, second, state_string, closed}
use notification_system.Queue.Topology.{
  queue_sms, queue_email, queue_push, exchange_name, infrastructure,
}
use notification_system.Queue.Topology.Routes.{route}
use notification_system.Api.Metrics.{get_circuit_breaker_states}

pub record Settings : Type 0 where
  pub port : ℕ
  pub database_url : String
  pub rabbitmq_url : String
  pub redis_url : String
  pub webhook_url : String
  pub worker_count : ℕ
  pub max_retries : ℕ
  pub rate_limit : ℕ
  pub log_level : String

-- `Load`, from the result of `env.Parse`.
unfoldable pub load : Result Settings → Result Settings
load (ok c) = ok c
load (err e) = err (wrapped ("parsing config: " <> error_text e))

pub record RateLimiter : Type 0 where
  pub key : String
  pub rate : ℕ

-- internal/ratelimiter/ratelimiter.go, `New`.
unfoldable pub new_rate_limiter : String → ℕ → RateLimiter
new_rate_limiter channel rate = record { key = "ratelimit:" <> channel; rate = rate }

pub record WebhookProvider : Type 0 where
  pub timeout : ℕ
  pub webhook_url : String

unfoldable pub new_webhook_provider : String → WebhookProvider
new_webhook_provider url = record { timeout = 5 * second; webhook_url = url }

-- `breaker` is a pointer: the number of a breaker in the store.
pub record Processor : Type 0 where
  pub provider : WebhookProvider
  pub limiter : RateLimiter
  pub breaker : ℕ
  pub max_retries : ℕ

unfoldable pub new_processor : WebhookProvider → RateLimiter → ℕ → ℕ → Processor
new_processor provider limiter breaker max_retries = record {
  provider = provider;
  limiter = limiter;
  breaker = breaker;
  max_retries = max_retries;
}

pub record Dispatcher : Type 0 where
  pub channel : String
  pub queue_name : String
  pub worker_count : ℕ
  pub processor : Processor

unfoldable pub new_dispatcher : String → String → ℕ → Processor → Dispatcher
new_dispatcher channel queue_name worker_count processor = record {
  channel = channel;
  queue_name = queue_name;
  worker_count = worker_count;
  processor = processor;
}

-- The channels, with the queues that main names for them.
unfoldable pub channels : List (String × String)
channels = (channel_sms, queue_sms) ∷ (channel_email, queue_email) ∷ (channel_push, queue_push) ∷ []

-- The breakers by their numbers, and the two variables that main's loop fills: the breakers for the
-- metrics, which are pointers, and the dispatchers that it starts.
pub record Made : Type 0 where
  pub store : List CircuitBreaker
  pub breakers : List (String × ℕ)
  pub dispatchers : List Dispatcher

-- One round of the loop, at a time: the new breaker is appended for the metrics and given to the
-- processor.
unfoldable pub make_dispatcher : Settings → ℕ → String × String → Made → Made
unfolding new_dispatcher new_processor new_webhook_provider new_rate_limiter
make_dispatcher c now (name, queue_name) m =
    let limiter = new_rate_limiter name c.rate_limit in
    let breaker = length m.store in
    let proc = new_processor (new_webhook_provider c.webhook_url) limiter breaker c.max_retries in
    record {
      store = m.store ++ new now ∷ [];
      breakers = m.breakers ++ (name, breaker) ∷ [];
      dispatchers = m.dispatchers ++ new_dispatcher name queue_name c.worker_count proc ∷ [];
    }

unfoldable pub make_dispatchers : Settings → ℕ → List (String × String) → Made → Made
make_dispatchers c now [] m = m
make_dispatchers c now (channel ∷ channels) m =
    make_dispatchers c now channels (make_dispatcher c now channel m)

unfoldable pub made : Settings → ℕ → Made
unfolding make_dispatchers
made c now =
    make_dispatchers c now channels (record { store = []; breakers = []; dispatchers = [] })

-- The breakers behind the pointers, as the store holds them when the metrics read them.
unfoldable pub read_breakers :
    List CircuitBreaker → List (String × ℕ) → List (String × CircuitBreaker)
read_breakers store [] = []
read_breakers store ((channel, breaker) ∷ breakers) =
    let rest = read_breakers store breakers in
    elim (get_elem? store breaker) [ none ↦ rest | some cb ↦ (channel, cb) ∷ rest ]
