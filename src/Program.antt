-- ===== src/Program.antt =====
-- cmd/server/main.go, `main`: what it opens, starts, stops and closes, in order, by what the outside
-- answers; and `parseLogLevel`. `os.Exit` runs no deferred call. What it makes for each channel is in
-- Wiring.
pub mod Orderly
pub mod Wiring
use notification_system.Base.{
  ℕ, String, List, [], ◌∷◌, ◌++◌, map, Option, none, some, Bool, true, false, str_eq, if◌then◌else◌,
}
use notification_system.Domain.Errors.{is_ok}
use notification_system.Domain.Notification.{channel_sms, channel_email, channel_push}
use notification_system.Queue.Connection.{Dial, new_connection}
use notification_system.Queue.Topology.Declaring.{declare_infrastructure}

-- What `main` closes by a deferred call.
pub data Resource : Type 0 where
  database rabbitmq producer redis : Resource

pub data Task : Type 0 where
  poller scheduler server : Task
  dispatcher : String → Task

-- `waited` is the end of `dispatcherWg.Wait`, `shut_down` that of `srv.Shutdown`.
pub data Event : Type 0 where
  opened closed : Resource → Event
  started : Task → Event
  cancelled waited shut_down exited : Event

-- Whether each call of the start goes through: `config.Load`, `sql.Open`, `PingContext`, the dials,
-- the channel and the calls of `DeclareInfrastructure`, `NewProducer`, `redis.ParseURL`, `Ping`; and
-- how the server ends, by a signal or by an error.
pub record Outside : Type 0 where
  pub config : Bool
  pub database_url : Bool
  pub ping : Bool
  pub dial : ℕ → Dial
  pub now : ℕ
  pub opening : Option String
  pub refuses : ℕ → Option String
  pub new_producer : Bool
  pub redis_url : Bool
  pub redis_ping : Bool
  pub signalled : Bool

unfoldable pub connected : Option ℕ × ℕ → Bool
connected (none, now) = false
connected (some i, now) = true

-- The calls that end the program when they fail, with what is open after each: its `Close` is
-- deferred at once.
unfoldable pub stages : Outside → List (Bool × Option Resource)
unfolding connected
stages o =
    (o.config, none)
    ∷ (o.database_url, some database)
    ∷ (o.ping, none)
    ∷ (connected (new_connection o.dial o.now), some rabbitmq)
    ∷ (is_ok (declare_infrastructure o.refuses o.opening).0, none)
    ∷ (o.new_producer, some producer)
    ∷ (o.redis_url, some redis)
    ∷ (o.redis_ping, none)
    ∷ []

-- What a stage that goes through adds to the events, and to the deferred calls, the last one first.
unfoldable pub opening : Option Resource → List Event
opening none = []
opening (some r) = opened r ∷ []

unfoldable pub deferring : Option Resource → List Resource → List Resource
deferring none deferred = deferred
deferring (some r) deferred = r ∷ deferred

-- What happens if all of them go through is `rest`, of what has been deferred.
unfoldable pub through :
    List (Bool × Option Resource) → List Resource → (List Resource → List Event) → List Event
unfolding opening deferring
through [] deferred rest = rest deferred
through ((passes, resource) ∷ stages) deferred rest =
    let later = through stages (deferring resource deferred) rest in
    if passes then opening resource ++ later else exited ∷ []

unfoldable pub serving : List Event
serving =
    started poller
    ∷ started (dispatcher channel_sms)
    ∷ started (dispatcher channel_email)
    ∷ started (dispatcher channel_push)
    ∷ started scheduler
    ∷ started server
    ∷ []

-- After a signal, with the deferred calls, which run when main returns.
unfoldable pub stopping : Bool → List Resource → List Event
stopping signalled deferred =
    if signalled then cancelled ∷ waited ∷ shut_down ∷ map closed deferred else exited ∷ []

unfoldable pub main : Outside → List Event
unfolding through serving stopping
main o = through (stages o) [] (λ deferred. serving ++ stopping o.signalled deferred)

-- `slog.Level`
pub data Level : Type 0 where
  debug info warn error : Level

unfoldable pub parse_log_level : String → Level
parse_log_level level =
    if str_eq level "debug"
    then debug
    else if str_eq level "info"
    then info
    else if str_eq level "warn"
    then warn
    else if str_eq level "error"
    then error
    else info
