-- ===== src/Scenarios/Serving.antt =====
-- The theorems on the router, on the metrics' latency and on main's wiring, at concrete inputs.
use mathlib.Core.Option
use notification_system.Base.{
  ℕ, List, [], ◌∷◌, length, some, none, ◌≡◌, ◌⊎◌, refl, true, str_eq, if◌then◌else◌,
}
use notification_system.Base.Dict.{get}
use notification_system.Base.Int.{pos}
use notification_system.Domain.Notification.{Notification, is_valid_channel}
use notification_system.CircuitBreaker.{CircuitBreaker, new, opened}
use notification_system.World.{World, answered, call}
use notification_system.Api.Responses.{Response, respond_json, error_response}
use notification_system.Api.Middleware.{correlate}
use notification_system.Api.Router.{create, Request, Server, serve, within, route_of}
use notification_system.Api.Router.Guarded.{IsRefused, IsHandled, serve-cases}
use notification_system.Api.Metrics.Latency.{
  Aggregates, get_latency, latency_of, line, spans_of, latency_complete,
}
use notification_system.Program.Wiring.{Settings, Dispatcher}
use notification_system.Program.Wiring.Consumed.{IsServedBy, dispatchers-IsServedBy}
use notification_system.Scenarios.{healthy, greeting, pending, resting}

abbrev not_found : Response
not_found = respond_json 404 (error_response "not found" [])

abbrev server : Server
server = record {
  env = healthy;
  depth = pos 0;
  parsers = record { parse_time = λ s. none; parse_int = λ s. none; decode_cursor = λ s. none };
  outside = λ e w. (some not_found, w);
  find_route = λ method path.
      if str_eq method "POST"
      then (if str_eq path "/api/v1/notifications" then some create else none)
      else none;
  unrouted = λ w. (not_found, w);
}

-- A POST of plain text.
abbrev posted : Request
posted = record {
  method = "POST";
  path = "/api/v1/notifications";
  content_type = "text/plain";
  correlation_id = "c1";
  id = "";
  notification = some greeting;
  batch = none;
  template = none;
  query = record {
    status = "";
    channel = "";
    priority = "";
    created_after = "";
    created_before = "";
    cursor = "";
    limit = "";
  };
}

create_route : (route_of create).0 ≡ "POST"
unfolding route_of
create_route = refl

serve-cases_example :
    let (out, w') = serve server posted resting in
    let v = (correlate healthy "c1" resting).1 in
    let t = within server out.correlation_id in
    (IsRefused t posted create v (out.response, w')
      ⊎ IsHandled t posted create v (out.response, w'))
    × (out.logged
        ≡ Option.map
            (λ a. record { status = a.status; correlation_id = out.correlation_id })
            out.response)
    × ((posted.correlation_id ≡ "") ⊎ (out.correlation_id ≡ posted.correlation_id))
serve-cases_example = serve-cases server posted create resting refl create_route

abbrev sent_row : Notification
sent_row = record (pending 7) { sent_at = some 900 }

-- Two rows, of which one has been sent; the aggregates count.
abbrev partly_sent : World
partly_sent = record resting { rows = sent_row ∷ pending 8 ∷ [] }

abbrev counting : Aggregates ℕ
counting = record {
  avg = λ spans. length spans;
  max = λ spans. length spans;
  min = λ spans. length spans;
}

answer : call healthy partly_sent ≡ (answered, (call healthy partly_sent).1)
unfolding call
answer = refl

latency_complete_example :
    get "sms" (get_latency counting healthy 0 partly_sent).0
    ≡ Option.map (latency_of counting) (line (spans_of "sms" (call healthy partly_sent).1.rows))
latency_complete_example =
    latency_complete counting healthy 0 partly_sent (call healthy partly_sent).1 answer "sms"

abbrev settings : Settings
settings = record {
  port = 8080;
  database_url = "postgres://db";
  rabbitmq_url = "amqp://mq";
  redis_url = "redis://cache";
  webhook_url = "https://provider";
  worker_count = 3;
  max_retries = 3;
  rate_limit = 100;
  log_level = "info";
}

email_valid : is_valid_channel "email" ≡ true
unfolding is_valid_channel
email_valid = refl

-- The second breaker, the one of "email", has opened.
abbrev tripped : List CircuitBreaker
tripped = new 0 ∷ record (new 0) { state = opened } ∷ new 0 ∷ []

dispatchers-IsServedBy_example : (d : Dispatcher) × IsServedBy settings 0 tripped "email" d
dispatchers-IsServedBy_example = dispatchers-IsServedBy settings 0 tripped "email" email_valid
