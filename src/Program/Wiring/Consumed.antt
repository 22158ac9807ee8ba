-- ===== src/Program/Wiring/Consumed.antt =====
-- The parts that main makes for a channel, beside one another and the topology.
use mathlib.Core.Option
use notification_system.Base.{
  ℕ, String, List, [], ◌∷◌, ◌<>◌, Option, some, true, ◌≡◌, refl, inl, inr, find, filter, str_eq,
  ◌==◌, get_elem?,
}
use notification_system.Base.Dict.{get, put}
use notification_system.Domain.Notification.{is_valid_channel}
use notification_system.Domain.Validate.Acceptance.{is_valid_channel_iff}
use notification_system.CircuitBreaker.{CircuitBreaker, new, state_string}
use notification_system.Queue.Topology.Routes.{HasQueues, channels_routed}
use notification_system.Api.Metrics.{get_circuit_breaker_states}
use notification_system.Program.Wiring.{
  Settings, Dispatcher, channels, make_dispatcher, make_dispatchers, made, read_breakers,
}

-- The dispatcher of the channel: it consumes from the channel's queue, its limiter has the key that the
-- metrics read, and its breaker is new, is no other dispatcher's, and is the one that the metrics show
-- for the channel, whatever the breakers have become.
pub record IsServedBy (c : Settings) (now : ℕ) (store : List CircuitBreaker) (channel : String)
    (d : Dispatcher) : Type 0 where
  pub found : find (λ e. str_eq e.channel channel) (made c now).dispatchers ≡ some d
  pub queues : HasQueues channel d.queue_name ("notifications." <> channel <> ".dlq")
  pub key : d.processor.limiter.key ≡ "ratelimit:" <> channel
  pub rate : d.processor.limiter.rate ≡ c.rate_limit
  pub retries : d.processor.max_retries ≡ c.max_retries
  pub fresh : get_elem? (made c now).store d.processor.breaker ≡ some (new now)
  pub own :
      filter (λ e. e.processor.breaker == d.processor.breaker) (made c now).dispatchers ≡ d ∷ []
  pub shown :
      get channel (get_circuit_breaker_states (read_breakers store (made c now).breakers) [])
      ≡ Option.map (λ cb. state_string cb.state) (get_elem? store d.processor.breaker)

-- What the metrics show of a store, by how many of the three breakers it has.
states_shown :
    (c : Settings) (now : ℕ) (store : List CircuitBreaker)
    → let states = get_circuit_breaker_states (read_breakers store (made c now).breakers) [] in
      let state : ℕ → Option String =
        λ i. Option.map (λ cb. state_string cb.state) (get_elem? store i) in
      (get "sms" states ≡ state 0) × (get "email" states ≡ state 1) × (get "push" states ≡ state 2)
unfolding made make_dispatchers make_dispatcher channels read_breakers get put
    get_circuit_breaker_states
states_shown c now [] = (refl, refl, refl)
states_shown c now (a ∷ []) = (refl, refl, refl)
states_shown c now (a ∷ b ∷ []) = (refl, refl, refl)
states_shown c now (a ∷ b ∷ d ∷ more) = (refl, refl, refl)

served_by :
    (c : Settings) (now : ℕ) (store : List CircuitBreaker)
    → ((d : Dispatcher) × IsServedBy c now store "sms" d)
      × ((d : Dispatcher) × IsServedBy c now store "email" d)
      × ((d : Dispatcher) × IsServedBy c now store "push" d)
unfolding made make_dispatchers make_dispatcher channels
served_by c now store =
    let (sms, email, push) = channels_routed in
    let (sms_shown, email_shown, push_shown) = states_shown c now store in
    (
      (
        _,
        record {
          found = refl;
          queues = sms;
          key = refl;
          rate = refl;
          retries = refl;
          fresh = refl;
          own = refl;
          shown = sms_shown;
        },
      ),
      (
        _,
        record {
          found = refl;
          queues = email;
          key = refl;
          rate = refl;
          retries = refl;
          fresh = refl;
          own = refl;
          shown = email_shown;
        },
      ),
      (
        _,
        record {
          found = refl;
          queues = push;
          key = refl;
          rate = refl;
          retries = refl;
          fresh = refl;
          own = refl;
          shown = push_shown;
        },
      ),
    )

-- For each of the three channels, main starts a dispatcher that consumes from the one queue that the
-- messages of that channel reach, and what it rejects reaches the channel's dead letter queue. Its
-- rate limiter and its retries are those of the configuration, under the key of the channel; its
-- breaker is new and no other dispatcher's. Whatever the breakers in the store have become, the metrics
-- show under the channel's name the state of that dispatcher's breaker.
pub dispatchers-IsServedBy :
    (c : Settings) (now : ℕ) (store : List CircuitBreaker) (channel : String)
    → is_valid_channel channel ≡ true
    → (d : Dispatcher) × IsServedBy c now store channel d
dispatchers-IsServedBy c now store channel v =
    let (sms, email, push) = served_by c now store in
    elim ((is_valid_channel_iff channel).0 v) [
      | inl is ↦ rw is sms
      | inr (inl is) ↦ rw is email
      | inr (inr is) ↦ rw is push
    ]
