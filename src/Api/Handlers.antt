-- ===== src/Api/Handlers.antt =====
-- internal/api/handler/notification.go and template.go. A request's body is what the JSON decoder
-- makes of it, `none` where it fails; the parsers of times, integers and cursors are `Parsers`.
pub mod Rejections
use notification_system.Base.{
  ℕ, suc, String, List, [], ◌∷◌, Option, none, some, Bool, true, false, ◌||◌, str_eq, decimal,
  length, ltb, leb, min, if◌then◌else◌, ◌<>◌, map,
}
use notification_system.Base.Int.{ℤ, pos, negsuc}
use notification_system.Domain.Errors.{Result, ok, err}
use notification_system.Domain.Notification.{
  Notification, CreateNotificationRequest, BatchCreateRequest, priority_normal,
}
use notification_system.Domain.Template.{Template, CreateTemplateRequest, validate_template}
use notification_system.World.{Env, World}
use notification_system.Repository.Listing
use notification_system.Repository.Listing.{ListFilters, Cursor}
use notification_system.Repository.Templates
use notification_system.Service
use notification_system.Api.Backpressure.{check_backpressure}
use notification_system.Api.Responses.{
  BatchResponse, Payload, error_response, notification, batch, listing, template, template_list,
  Response, respond_json, respond_error, respond, bad_request,
}

responded {ℓ} : {A : Type ℓ} → ℕ → (A → Payload) → Result A × World → Response × World
responded status payload (r, w) = (respond status payload r, w)

-- `strconv.Itoa`
decimal_ℤ : ℤ → String
decimal_ℤ (pos n) = decimal n
decimal_ℤ (negsuc n) = "-" <> decimal (suc n)

overloaded : ℤ → Response
overloaded depth = record {
  status = 429;
  headers = ("Retry-After", "30") ∷ ("X-Queue-Depth", decimal_ℤ depth) ∷ [];
  payload = error_response "system under high load, retry later" [];
}

-- The priority that the backpressure looks at.
abbrev pub effective_priority : CreateNotificationRequest → String
effective_priority r = if str_eq r.priority "" then priority_normal else r.priority

unfoldable pub create : Env → ℤ → Option CreateNotificationRequest → World → Response × World
unfolding responded overloaded decimal_ℤ
create env depth none w = (bad_request "invalid request body", w)
create env depth (some r) w =
    if check_backpressure depth (effective_priority r)
    then (overloaded depth, w)
    else responded 201 notification (Service.create env r w)

batch_payload : ℕ × List Notification → Payload
batch_payload (id, ns) = batch (record { batch_id = id; notifications = ns; count = length ns })

unfoldable pub create_batch : Env → Option BatchCreateRequest → World → Response × World
unfolding responded batch_payload
create_batch env none w = (bad_request "invalid request body", w)
create_batch env (some b) w = responded 201 batch_payload (Service.create_batch env b w)

-- `parseUUIDParam` and its error.
with_id : Env → String → (ℕ → World → Response × World) → World → Response × World
with_id env raw k w = elim (env.uuid_parse raw) [
  | none ↦ (bad_request "invalid id format", w)
  | some id ↦ k id w
]

unfoldable pub get_by_id : Env → String → World → Response × World
unfolding with_id responded
get_by_id env raw =
    with_id env raw (λ id w. responded 200 notification (Service.get_by_id env id w))

unfoldable pub get_batch_status : Env → String → World → Response × World
unfolding with_id responded batch_payload
get_batch_status env raw =
    with_id env raw
      (λ id w. responded 200 (λ ns. batch_payload (id, ns)) (Service.get_by_batch_id env id w))

unfoldable pub cancel : Env → String → World → Response × World
unfolding with_id responded
cancel env raw = with_id env raw (λ id w. responded 200 notification (Service.cancel env id w))

-- `time.Parse(time.RFC3339, _)`, `strconv.Atoi` and `DecodeCursor`.
pub record Parsers : Type 0 where
  pub parse_time : String → Option ℕ
  pub parse_int : String → Option ℤ
  pub decode_cursor : String → Option Cursor

-- The parameters of the URL's query; one that is missing is "".
pub record ListQuery : Type 0 where
  pub status : String
  pub channel : String
  pub priority : String
  pub created_after : String
  pub created_before : String
  pub cursor : String
  pub limit : String

unfoldable pub string_ptr : String → Option String
string_ptr s = if str_eq s "" then none else some s

-- An optional parameter: absent, parsed, or refused.
pub data Parameter {ℓ} (A : Type ℓ) : Type ℓ where
  absent refused : Parameter A
  given : A → Parameter A

parameter {ℓ} : {A : Type ℓ} → (String → Option A) → String → Parameter A
parameter parse v =
    if str_eq v "" then absent else elim (parse v) [ none ↦ refused | some a ↦ given a ]

-- A limit must be a number from 1 on; above 100 it is 100.
check_limit : Option ℤ → Parameter ℕ
check_limit none = refused
check_limit (some (negsuc n)) = refused
check_limit (some (pos n)) = if ltb n 1 then refused else given (min n 100)

limit_parameter : Parsers → String → Parameter ℕ
limit_parameter p v = if str_eq v "" then given 20 else check_limit (p.parse_int v)

-- An optional parameter's value, or the response to a refused one.
and_then {ℓ} :
    {A : Type ℓ}
    → Parameter A
    → String
    → (Option A → World → Response × World)
    → World
    → Response × World
and_then absent text k w = k none w
and_then (given a) text k w = k (some a) w
and_then refused text k w = (bad_request text, w)

listed : Env → ListFilters → Option Cursor → Option ℕ → World → Response × World
listed env f c none w = responded 200 listing (Listing.list env f c 0 w)
listed env f c (some limit) w = responded 200 listing (Listing.list env f c limit w)

unfoldable pub list : Env → Parsers → ListQuery → World → Response × World
unfolding parameter limit_parameter check_limit and_then listed responded string_ptr
list env p q =
    and_then (parameter p.parse_time q.created_after)
      "invalid value for created_after, expected RFC3339 format"
      (λ after.
        and_then (parameter p.parse_time q.created_before)
          "invalid value for created_before, expected RFC3339 format"
          (λ until. and_then (parameter p.decode_cursor q.cursor) "invalid cursor" (λ cursor.
            and_then (limit_parameter p q.limit) "invalid value for limit" (λ limit.
              listed env
                (record {
                  status = string_ptr q.status;
                  channel = string_ptr q.channel;
                  priority = string_ptr q.priority;
                  created_after = after;
                  created_before = until;
                })
                cursor limit))))

template_of : CreateTemplateRequest → Template
template_of r = record {
  id = 0;
  name = r.name;
  channel = r.channel;
  content = r.content;
  subject = r.subject;
  created_at = 0;
  updated_at = 0;
}

unfoldable pub create_template : Env → Option CreateTemplateRequest → World → Response × World
unfolding responded template_of
create_template env none w = (bad_request "invalid request body", w)
create_template env (some r) w = elim (validate_template r) [
  | some e ↦ (respond_error e, w)
  | none ↦ responded 201 template (Templates.create env (template_of r) w)
]

unfoldable pub get_template : Env → String → World → Response × World
unfolding with_id responded
get_template env raw =
    with_id env raw (λ id w. responded 200 template (Templates.get_by_id env id w))

unfoldable pub list_templates : Env → World → Response × World
unfolding responded
list_templates env w = responded 200 template_list (Templates.list env 50 w)
