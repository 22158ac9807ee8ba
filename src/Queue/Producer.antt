-- ===== src/Queue/Producer.antt =====
-- internal/queue/producer.go. A message that the broker takes stands at the end of `queue`.
use notification_system.Base.{ℕ, String, [], ◌∷◌, ◌++◌, str_eq, ◌<>◌, if◌then◌else◌}
use notification_system.Domain.Errors.{Result, ok, err, wrapped}
use notification_system.Domain.Notification.{
  Notification, priority_high, priority_normal, priority_low,
}
use notification_system.Api.Middleware.{get_correlation_id}
use notification_system.World.{
  Env, World, Verdict, answered, refused, unread, Message, persistent, Publishing, Action, call,
}

unfoldable pub map_priority : String → ℕ
map_priority p =
    if str_eq p priority_high
    then 10
    else if str_eq p priority_normal
    then 5
    else if str_eq p priority_low
    then 1
    else 5

message_of : Env → Notification → Message
message_of env n = record {
  id = env.uuid_string n.id;
  recipient = n.recipient;
  channel = n.channel;
  content = n.content;
  subject = n.subject;
  priority = n.priority;
  metadata = n.metadata;
}

unfoldable pub publishing : Env → Notification → Publishing
unfolding map_priority message_of get_correlation_id
publishing env n = record {
  routing_key = n.channel;
  content_type = "application/json";
  delivery_mode = persistent;
  correlation_id = get_correlation_id env.correlation_id;
  priority = map_priority n.priority;
  message_id = env.uuid_string n.id;
  body = message_of env n;
}

publish_after : Publishing → Verdict × World → Result (Unit {0}) × World
publish_after p (answered, w) = (ok tt, record w { queue = w.queue ++ p ∷ [] })
publish_after p (refused m, w) = (err (wrapped ("publishing to queue: " <> m)), w)
publish_after p (unread m, w) =
    (err (wrapped ("publishing to queue: " <> m)), record w { queue = w.queue ++ p ∷ [] })

-- `Publish`, under the producer's mutex. Marshalling the message does not fail: the metadata of a
-- stored notification is JSON.
unfoldable pub publish : Env → Notification → Action (Unit {0})
unfolding publish_after publishing
publish env n w = publish_after (publishing env n) (call env w)
