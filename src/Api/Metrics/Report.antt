-- ===== src/Api/Metrics/Report.antt =====
-- `Metrics`: the response, from its parts in the order in which the source asks for them. The answer's
-- status is 200 whatever fails; `none` is the panic of `getQueueDepths`.
use notification_system.Base.{ℕ, String, List, [], Option, none, some, ◌≡◌, refl, arith, ◌∙◌}
use notification_system.Base.Dict.{Dict}
use notification_system.World.{Env, World, Verdict, answered, refused, unread, call}
use notification_system.CircuitBreaker.{CircuitBreaker}
use notification_system.Api.Metrics.{
  Counts, get_notification_counts, get_circuit_breaker_states, get_rate_limiter_tokens,
}
use notification_system.Api.Metrics.Queues.{Broker, QueueMetrics, get_queue_depths}
use notification_system.Api.Metrics.Latency.{Aggregates, LatencyMetrics, get_latency, latency_after}

pub record MetricsResponse {ℓ} (F : Type ℓ) : Type ℓ where
  pub timestamp : ℕ
  pub queues : Dict QueueMetrics
  pub notifications : Counts
  pub latency : Dict (LatencyMetrics F)
  pub circuit_breakers : Dict String
  pub rate_limiters : Dict F

-- What the handler is made with, and what its sources answer.
pub record MetricsHandler {ℓ} (F : Type ℓ) : Type ℓ where
  pub aggregates : Aggregates F
  pub parse_float : String → Option F
  pub minus_one : F
  pub breakers : List (String × CircuitBreaker)
  pub broker : Broker
  pub hget : String → Option String
  pub fetched : ℕ

reported {ℓ} :
    {F : Type ℓ}
    → MetricsHandler F
    → Env
    → ℕ
    → World
    → Option (Dict QueueMetrics × ℕ)
    → Option (MetricsResponse F) × World
reported h env now w none = (none, w)
reported h env now w (some (queues, held)) =
    let (counts, w') = get_notification_counts env h.fetched w in
    let (latency, w'') = get_latency h.aggregates env h.fetched w' in
    (
      some (record {
        timestamp = now;
        queues = queues;
        notifications = counts;
        latency = latency;
        circuit_breakers = get_circuit_breaker_states h.breakers [];
        rate_limiters = get_rate_limiter_tokens h.parse_float h.minus_one h.hget;
      }),
      w'',
    )

unfoldable pub metrics {ℓ} :
    {F : Type ℓ} → MetricsHandler F → Env → World → Option (MetricsResponse F) × World
unfolding reported
metrics h env w = reported h env w.now w (get_queue_depths h.broker)

counts-rows :
    (env : Env) (fetched : ℕ) (w : World) → (get_notification_counts env fetched w).1.rows ≡ w.rows
unfolding get_notification_counts call
counts-rows env fetched w = ground arith

latency_after-rows {ℓ} :
    {F : Type ℓ} (agg : Aggregates F) (fetched : ℕ) (v : Verdict) (w : World)
    → (latency_after agg fetched (v, w)).1.rows ≡ w.rows
unfolding latency_after
latency_after-rows agg fetched answered w = refl
latency_after-rows agg fetched (refused m) w = refl
latency_after-rows agg fetched (unread m) w = refl

latency-rows {ℓ} :
    {F : Type ℓ} (agg : Aggregates F) (env : Env) (fetched : ℕ) (w : World)
    → (get_latency agg env fetched w).1.rows ≡ w.rows
unfolding get_latency call
latency-rows agg env fetched w = latency_after-rows agg fetched (call env w).0 (call env w).1

reported-rows {ℓ} :
    {F : Type ℓ} (h : MetricsHandler F) (env : Env) (now : ℕ) (w : World)
    (o : Option (Dict QueueMetrics × ℕ))
    → (reported h env now w o).1.rows ≡ w.rows
unfolding reported
reported-rows h env now w none = refl
reported-rows h env now w (some (queues, held)) =
    latency-rows h.aggregates env h.fetched (get_notification_counts env h.fetched w).1
    ∙ counts-rows env h.fetched w

-- The metrics only read.
pub metrics-rows {ℓ} :
    {F : Type ℓ} (h : MetricsHandler F) (env : Env) (w : World) → (metrics h env w).1.rows ≡ w.rows
unfolding metrics
metrics-rows h env w = reported-rows h env w.now w (get_queue_depths h.broker)
