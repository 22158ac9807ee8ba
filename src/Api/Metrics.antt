-- ===== src/Api/Metrics.antt =====
-- internal/api/handler/metrics.go: the counts, the states of the breakers and the tokens of the rate
-- limiters; the queues' depths, the latencies and the response are in the modules below.
pub mod Counts
pub mod Queues
pub mod Latency
pub mod Report
use notification_system.Base.{
  ℕ, suc, String, List, [], ◌∷◌, Option, none, some, Bool, true, false, ◌&&◌, ◌<>◌, str_eq, take,
  filter, if◌then◌else◌,
}
use notification_system.Base.Dict.{Dict, get, put}
use notification_system.Domain.Notification.{Notification}
use notification_system.World.{Env, World, Verdict, answered, refused, unread, call}
use notification_system.CircuitBreaker.{CircuitBreaker, state_string}

-- A line of `SELECT channel, status, COUNT(*) ... GROUP BY channel, status`.
pub record Group : Type 0 where
  pub channel : String
  pub status : String
  pub number : ℕ

abbrev pub is_group : String → String → Group → Bool
is_group channel status g = str_eq g.channel channel && str_eq g.status status

-- One more row for its group.
unfoldable pub add_row : Notification → List Group → List Group
add_row n [] = record { channel = n.channel; status = n.status; number = 1 } ∷ []
add_row n (g ∷ gs) =
    if is_group n.channel n.status g
    then record g { number = suc g.number } ∷ gs
    else g ∷ add_row n gs

unfoldable pub groups : List Notification → List Group
groups [] = []
groups (n ∷ rows) = add_row n (groups rows)

abbrev pub Counts : Type 0
Counts = Dict (Dict ℕ)

-- `result[channel]`, which is made if it is nil.
abbrev pub or_empty : Option (Dict ℕ) → Dict ℕ
or_empty none = []
or_empty (some m) = m

abbrev pub statuses : String → Counts → Dict ℕ
statuses channel result = or_empty (get channel result)

-- One round of the loop over the lines.
unfoldable pub put_group : Counts → Group → Counts
put_group result g = put g.channel (put g.status g.number (statuses g.channel result)) result

unfoldable pub put_groups : Counts → List Group → Counts
put_groups result [] = result
put_groups result (g ∷ gs) = put_groups (put_group result g) gs

-- `getNotificationCounts`. Where the connection breaks while the lines are read, `fetched` of them
-- have come: `rows.Err` is not asked, and these are returned.
unfoldable pub counts_after : ℕ → Verdict × World → Counts × World
counts_after fetched (refused m, w) = ([], w)
counts_after fetched (answered, w) = (put_groups [] (groups w.rows), w)
counts_after fetched (unread m, w) = (put_groups [] (take fetched (groups w.rows)), w)

unfoldable pub get_notification_counts : Env → ℕ → World → Counts × World
unfolding counts_after
get_notification_counts env fetched w = counts_after fetched (call env w)

-- `getCircuitBreakerStates`, with the breakers in the order in which main made them.
unfoldable pub get_circuit_breaker_states :
    List (String × CircuitBreaker) → Dict String → Dict String
get_circuit_breaker_states [] result = result
get_circuit_breaker_states ((channel, cb) ∷ breakers) result =
    get_circuit_breaker_states breakers (put channel (state_string cb.state) result)

-- One channel of `getRateLimiterTokens`: what `HGET` finds, as a number; -1 where it fails, finds
-- nothing or finds no number. Numbers are the type `F` of the parser's results.
unfoldable pub tokens_remaining {ℓ} : {F : Type ℓ} → (String → Option F) → F → Option String → F
tokens_remaining parse_float minus_one none = minus_one
tokens_remaining parse_float minus_one (some text) = elim (parse_float text) [
  | none ↦ minus_one
  | some tokens ↦ tokens
]

unfoldable pub get_rate_limiter_tokens {ℓ} :
    {F : Type ℓ} → (String → Option F) → F → (String → Option String) → Dict F
unfolding tokens_remaining
get_rate_limiter_tokens parse_float minus_one hget =
    put "push" (tokens_remaining parse_float minus_one (hget ("ratelimit:" <> "push"))) (
      put "email" (tokens_remaining parse_float minus_one (hget ("ratelimit:" <> "email")))
        (put "sms" (tokens_remaining parse_float minus_one (hget ("ratelimit:" <> "sms"))) []))
