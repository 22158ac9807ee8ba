-- ===== src/Api/Router/Guarded.antt =====
-- How requests pass the router's middleware.
use mathlib.Core.Option
use notification_system.Base.{
  String, [], Option, none, some, true, false, ◌≡◌, ◌≢◌, ◌⊎◌, inl, inr, refl, sym, ap, ◌∙◌, str_eq,
  eq_iff, Bool-cases,
}
use notification_system.World.{World}
use notification_system.Api.Responses.{Response, respond_json, error_response}
use notification_system.Api.Middleware.{
  get_correlation_id, correlate, content_type_json, contains, write_all, write,
}
use notification_system.Api.Router.{
  Endpoint, health, metrics, swagger, websocket, create, create_batch, list, get_by_id,
  get_batch_status, cancel, create_template, list_templates, get_template, route_of, in_group,
  Request, Server, handle, guarded, unless_refused, routed, serve, within, log_of,
}

abbrev get : String
get = "GET"

get-ne-post : get ≢ "POST"
get-ne-post e = let t = (eq_iff "GET" "POST").1 e in cc

-- No route is a PUT, and outside the group none is a POST.
route_of-methods :
    (e : Endpoint)
    → (str_eq (route_of e).0 "PUT" ≡ false) × ((in_group e ≡ true) ⊎ ((route_of e).0 ≢ "POST"))
unfolding route_of in_group
route_of-methods health = (refl, inr get-ne-post)
route_of-methods metrics = (refl, inr get-ne-post)
route_of-methods swagger = (refl, inr get-ne-post)
route_of-methods websocket = (refl, inr get-ne-post)
route_of-methods create = (refl, inl refl)
route_of-methods create_batch = (refl, inl refl)
route_of-methods list = (refl, inl refl)
route_of-methods get_by_id = (refl, inl refl)
route_of-methods get_batch_status = (refl, inl refl)
route_of-methods cancel = (refl, inl refl)
route_of-methods create_template = (refl, inl refl)
route_of-methods list_templates = (refl, inl refl)
route_of-methods get_template = (refl, inl refl)

-- The answer of `contentTypeJSON`.
abbrev pub unsupported : Response
unsupported = respond_json 415 (error_response "Content-Type must be application/json" [])

-- A request by POST whose content type does not name JSON.
pub record IsForeign (r : Request) : Type 0 where
  pub post : r.method ≡ "POST"
  pub other : contains r.content_type "application/json" ≡ false

-- The group's middleware answers in the handler's place, or lets the request through.
content_type_json-cases :
    (r : Request)
    → str_eq r.method "PUT" ≡ false
    → (IsForeign r × (content_type_json r.method r.content_type ≡ some unsupported))
      ⊎ (((r.method ≢ "POST") ⊎ (contains r.content_type "application/json" ≡ true))
          × (content_type_json r.method r.content_type ≡ none))
unfolding content_type_json
content_type_json-cases r put = elim (Bool-cases (str_eq r.method "POST")) [
  | inl post ↦ elim (Bool-cases (contains r.content_type "application/json")) [
    | inl json ↦ inr (inr json, rw (post, json) refl)
    | inr other ↦
        inl
          (record { post = (eq_iff r.method "POST").0 post; other = other }, rw (post, other) refl)
  ]
  | inr elsewhere ↦
      inr (inl (λ e. let t = (eq_iff r.method "POST").1 e in cc), rw (elsewhere, put) refl)
]

-- How a request ends that chi has a route for: refused, or handled.
module _ (s : Server) (r : Request) (e : Endpoint) (w : World) where
  abbrev pub IsRefused : Option Response × World → Type 0
  IsRefused out = IsForeign r × (out ≡ (some unsupported, w))

  abbrev pub IsHandled : Option Response × World → Type 0
  IsHandled out =
      ((r.method ≢ "POST") ⊎ (contains r.content_type "application/json" ≡ true))
      × (out ≡ handle s r e w)

  routed-cases :
      (route_of e).0 ≡ r.method
      → IsRefused (routed s r (some e) w) ⊎ IsHandled (routed s r (some e) w)
  unfolding routed guarded
  routed-cases m =
      let (put, post) = route_of-methods e in
      elim (Bool-cases (in_group e)) [
        | inr outside ↦ rw outside (inr (inl (outside_post outside post), refl))
        | inl inside ↦
            rw inside (elim (content_type_json-cases r (ap (λ t. str_eq t "PUT") (sym m) ∙ put)) [
              | inl (foreign, answer) ↦ rw (answer, unless_refused) (inl (foreign, refl))
              | inr (fine, answer) ↦ rw (answer, unless_refused) (inr (fine, refl))
            ])
      ]
    where
      outside_post :
          in_group e ≡ false → (in_group e ≡ true) ⊎ ((route_of e).0 ≢ "POST") → r.method ≢ "POST"
      outside_post o (inl i) same = cc
      outside_post o (inr d) same = d (m ∙ same)

logged_as :
    (id : String) (o : Option Response)
    → log_of (some id) o ≡ Option.map (λ a. record { status = a.status; correlation_id = id }) o
unfolding log_of write_all write get_correlation_id
logged_as id none = refl
logged_as id (some a) = refl

-- A request for which chi finds a route, of the request's method, ends in one of two ways. By POST
-- with a content type that does not name JSON it gets 415, and nothing has changed but for the
-- correlation id that was drawn; otherwise the answer and the state are the handler's, whose context
-- bears the id that the client gets. The log has a line exactly if there is an answer, which only a
-- panic of the handler prevents, with the answer's status and that id; and the id is the request's, if
-- it has one.
pub serve-cases :
    (s : Server) (r : Request) (e : Endpoint) (w : World)
    → s.find_route r.method r.path ≡ some e
    → (route_of e).0 ≡ r.method
    → let (out, w') = serve s r w in
      let v = (correlate s.env r.correlation_id w).1 in
      let t = within s out.correlation_id in
      (IsRefused t r e v (out.response, w') ⊎ IsHandled t r e v (out.response, w'))
      × (out.logged
          ≡ Option.map
              (λ a. record { status = a.status; correlation_id = out.correlation_id })
              out.response)
      × ((r.correlation_id ≡ "") ⊎ (out.correlation_id ≡ r.correlation_id))
unfolding serve correlate
serve-cases s r e w found m =
    let id = (correlate s.env r.correlation_id w).0 in
    let v = (correlate s.env r.correlation_id w).1 in
    (rw found (routed-cases (within s id) r e v m), logged_as id _, correlated)
  where
    correlated : (r.correlation_id ≡ "") ⊎ ((serve s r w).0.correlation_id ≡ r.correlation_id)
    correlated = elim (Bool-cases (str_eq r.correlation_id "")) [
      | inl none_given ↦ inl ((eq_iff r.correlation_id "").0 none_given)
      | inr given ↦ inr (rw (given, correlate) refl)
    ]
