-- ===== src/Api/Middleware.antt =====
-- internal/api/middleware and internal/api/router.go, `contentTypeJSON`.
use text.Mathlib.Text.{find?}
use notification_system.Base.{
  ◌≡◌, refl, ℕ, String, List, [], ◌∷◌, Option, none, some, Bool, true, false, ◌&&◌, ◌||◌, not,
  str_eq, if◌then◌else◌,
}
use notification_system.World.{Env, World, draw_uuid}
use notification_system.Api.Responses.{Response, error_response, respond_json}

-- `Correlation`: the id of the request, which the response repeats.
unfoldable pub correlate : Env → String → World → String × World
correlate env header w =
    if str_eq header ""
    then (let (id, w') = draw_uuid env w in (env.uuid_string id, w'))
    else (header, w)

-- `GetCorrelationID`, of the value that the request's context has under the key.
unfoldable pub get_correlation_id : Option String → String
get_correlation_id none = ""
get_correlation_id (some id) = id

-- `statusWriter`, as `Logging` makes it.
pub record StatusWriter : Type 0 where
  pub status : ℕ
  pub written : Bool

abbrev pub fresh_writer : StatusWriter
fresh_writer = record { status = 200; written = false }

-- What a handler does with the writer.
pub data Write : Type 0 where
  header : ℕ → Write
  body : Write

unfoldable pub write : StatusWriter → Write → StatusWriter
write sw (header code) = if sw.written then sw else record { status = code; written = true }
write sw body = if sw.written then sw else record { status = 200; written = true }

unfoldable pub write_all : StatusWriter → List Write → StatusWriter
write_all sw [] = sw
write_all sw (x ∷ xs) = write_all (write sw x) xs

unfoldable pub contains : String → String → Bool
contains s t = elim (find? s t) [ none ↦ false | some i ↦ true ]

-- The response that is given in the handler's place, if one is.
unfoldable pub content_type_json : String → String → Option Response
unfolding contains respond_json
content_type_json method content_type =
    if (str_eq method "POST" || str_eq method "PUT")
      && not (contains content_type "application/json")
    then some (respond_json 415 (error_response "Content-Type must be application/json" []))
    else none

write_all_written :
    (code : ℕ) (xs : List Write)
    → (write_all (record { status = code; written = true }) xs).status ≡ code
unfolding write_all write
write_all_written code [] = refl
write_all_written code (header c ∷ xs) = write_all_written code xs
write_all_written code (body ∷ xs) = write_all_written code xs

-- The status that the handler sets first is the one that is logged, and a body that is written
-- without one is logged as 200, whatever is written afterwards.
pub write_all_first :
    (code : ℕ) (xs : List Write)
    → ((write_all fresh_writer (header code ∷ xs)).status ≡ code)
      × ((write_all fresh_writer (body ∷ xs)).status ≡ 200)
unfolding write_all write
write_all_first code xs = (write_all_written code xs, write_all_written 200 xs)
