-- ===== src/Provider.antt =====
-- internal/provider/webhook.go. The exchange of `http.Client.Do` is the environment's `reply`, and
-- the parse of a response body its `parse_reply`; marshalling three texts
-- does not fail.
pub mod Classes
use notification_system.Base.{
  ◌<>◌, ℕ, ◌+◌, ◌≤◌, String, List, [], ◌∷◌, ◌++◌, Option, none, some, Bool, ◌&&◌, leb, ltb, ◌==◌,
  length, if◌then◌else◌,
}
use notification_system.Domain.Notification.{Notification}
use notification_system.World.{
  Env, World, Reply, unbuilt, no_reply, replied, call, ProviderResponse, WebhookRequest,
}

-- What `Send` returns: a response, one of the two error types with status code and message, or
-- another error.
pub data Sent : Type 0 where
  unexpected : String → Sent
  accepted : ProviderResponse → Sent
  retryable non_retryable : ℕ → String → Sent

-- The body, or the response that stands in for one that is no JSON. The timestamp of the latter,
-- which nothing reads, is left empty.
response : Option ProviderResponse → ProviderResponse
response (some r) = r
response none = record { message_id = ""; status = "accepted"; timestamp = "" }

-- The `switch` on the status code.
unfoldable pub classify : Env → Reply → Sent
unfolding response
classify env (unbuilt message) = unexpected ("creating request: " <> message)
classify env (no_reply message) = retryable 0 message
classify env (replied code body) =
    if leb 200 code && ltb code 300
    then accepted (response (env.parse_reply body))
    else if code == 429
    then retryable 429 "provider rate limited"
    else if leb 500 code
    then retryable code body
    else if leb 400 code
    then non_retryable code body
    else retryable code body

unfoldable pub request_of : Notification → WebhookRequest
request_of n = record { to = n.recipient; channel = n.channel; content = n.content }

-- The requests that left, with this one.
unfoldable pub requested : Notification → Reply → List WebhookRequest → List WebhookRequest
requested n (unbuilt m) sent = sent
requested n (no_reply m) sent = sent ++ request_of n ∷ []
requested n (replied code body) sent = sent ++ request_of n ∷ []

-- The exchange is a call that takes time; its outcome is the environment's reply.
unfoldable pub send : Env → Notification → World → Sent × World
unfolding request_of requested
send env n w =
    let w' = (call env w).1 in
    let r = env.reply w.calls in
    (classify env r, record w' { requests = requested n r w'.requests })
