-- ===== src/Api/Router.antt =====
-- internal/api/router.go: the routes, and what a request passes on its way to its handler. Which
-- route chi finds for a method and a path is the parameter `find_route`, and its answer to a request
-- without a route is `unrouted`. What a handler reads of a request is decoded in `Request`.
pub mod Guarded
use notification_system.Base.{
  ℕ, String, List, [], ◌∷◌, Option, none, some, Bool, true, false, ◌≡◌, ◌≢◌, ◌⊎◌, inl, inr, refl,
  sym, ap, ◌∙◌, arith, str_eq, eq_iff, Bool-cases, if◌then◌else◌,
}
use notification_system.Base.Int.{ℤ}
use notification_system.Domain.Notification.{CreateNotificationRequest, BatchCreateRequest}
use notification_system.Domain.Template.{CreateTemplateRequest}
use notification_system.World.{Env, World}
use notification_system.Api.Handlers
use notification_system.Api.Handlers.{Parsers, ListQuery}
use notification_system.Api.Responses.{Response}
use notification_system.Api.Middleware.{
  correlate, content_type_json, fresh_writer, header, body, write_all, get_correlation_id,
}

-- The handlers of the table, in its order.
pub data Endpoint : Type 0 where
  health metrics swagger websocket : Endpoint
  create create_batch list get_by_id get_batch_status cancel : Endpoint
  create_template list_templates get_template : Endpoint

-- The method and the pattern of each.
unfoldable pub route_of : Endpoint → String × String
route_of health = ("GET", "/health")
route_of metrics = ("GET", "/metrics")
route_of swagger = ("GET", "/swagger/*")
route_of websocket = ("GET", "/api/v1/ws")
route_of create = ("POST", "/api/v1/notifications")
route_of create_batch = ("POST", "/api/v1/notifications/batch")
route_of list = ("GET", "/api/v1/notifications")
route_of get_by_id = ("GET", "/api/v1/notifications/{id}")
route_of get_batch_status = ("GET", "/api/v1/notifications/batch/{id}")
route_of cancel = ("PATCH", "/api/v1/notifications/{id}/cancel")
route_of create_template = ("POST", "/api/v1/templates")
route_of list_templates = ("GET", "/api/v1/templates")
route_of get_template = ("GET", "/api/v1/templates/{id}")

-- Whether it stands in the group that uses `contentTypeJSON`.
unfoldable pub in_group : Endpoint → Bool
in_group health = false
in_group metrics = false
in_group swagger = false
in_group websocket = false
in_group _ = true

pub record Request : Type 0 where
  pub method : String
  pub path : String
  pub content_type : String
  pub correlation_id : String
  pub id : String
  pub notification : Option CreateNotificationRequest
  pub batch : Option BatchCreateRequest
  pub template : Option CreateTemplateRequest
  pub query : ListQuery

-- What the handlers are made with: the environment, the queue depth, the parsers, and the answers of
-- those that stand outside the group, which may panic (`none`).
pub record Server : Type 0 where
  pub env : Env
  pub depth : ℤ
  pub parsers : Parsers
  pub outside : Endpoint → World → Option Response × World
  pub find_route : String → String → Option Endpoint
  pub unrouted : World → Response × World

-- The server as a request's handler sees it: its context bears the request's correlation id.
unfoldable pub within : Server → String → Server
within s id = record s { env = record s.env { correlation_id = some id } }

-- The handler returns.
abbrev answering : Response × World → Option Response × World
answering (response, w) = (some response, w)

unfoldable pub handle : Server → Request → Endpoint → World → Option Response × World
handle s r create w = answering (Handlers.create s.env s.depth r.notification w)
handle s r create_batch w = answering (Handlers.create_batch s.env r.batch w)
handle s r list w = answering (Handlers.list s.env s.parsers r.query w)
handle s r get_by_id w = answering (Handlers.get_by_id s.env r.id w)
handle s r get_batch_status w = answering (Handlers.get_batch_status s.env r.id w)
handle s r cancel w = answering (Handlers.cancel s.env r.id w)
handle s r create_template w = answering (Handlers.create_template s.env r.template w)
handle s r list_templates w = answering (Handlers.list_templates s.env w)
handle s r get_template w = answering (Handlers.get_template s.env r.id w)
handle s r e w = s.outside e w

unless_refused :
    Option Response → (World → Option Response × World) → World → Option Response × World
unless_refused (some refusal) next w = (some refusal, w)
unless_refused none next w = next w

-- `contentTypeJSON`, round the handlers of the group.
guarded :
    Server → Request → Bool → (World → Option Response × World) → World → Option Response × World
guarded s r false next = next
guarded s r true next = unless_refused (content_type_json r.method r.content_type) next

unfoldable pub routed : Server → Request → Option Endpoint → World → Option Response × World
unfolding guarded unless_refused
routed s r none w = answering (s.unrouted w)
routed s r (some e) w = guarded s r (in_group e) (handle s r e) w

-- The line of the log, with its status and its id.
pub record Line : Type 0 where
  pub status : ℕ
  pub correlation_id : String

-- The id in the response's header, what the client gets, and the log's line: neither, if the handler
-- panics, since nothing between it and the server recovers.
pub record Served : Type 0 where
  pub correlation_id : String
  pub response : Option Response
  pub logged : Option Line

-- `Logging`, after its handler.
unfoldable pub log_of : Option String → Option Response → Option Line
log_of id none = none
log_of id (some response) = some (record {
  status = (write_all fresh_writer (header response.status ∷ body ∷ [])).status;
  correlation_id = get_correlation_id id;
})

-- `Correlation`, then `Logging`, then the route.
unfoldable pub serve : Server → Request → World → Served × World
unfolding within log_of
serve s r w =
    let (id, w') = correlate s.env r.correlation_id w in
    let (response, w'') = routed (within s id) r (s.find_route r.method r.path) w' in
    (record { correlation_id = id; response = response; logged = log_of (some id) response }, w'')
