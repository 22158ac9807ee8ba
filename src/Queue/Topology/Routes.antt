-- ===== src/Queue/Topology/Routes.antt =====
-- Where a message goes, by the documented behaviour of AMQP: a direct exchange delivers to each queue
-- that is bound to it under the message's routing key, and a message that a queue's consumer rejects
-- is published to the queue's dead letter exchange under its dead letter routing key.
use notification_system.Base.{
  false, String, List, [], ◌∷◌, map, Option, none, some, true, ◌&&◌, str_eq, filter, find, ◌≡◌,
  refl, inl, inr, arith, eq_iff, ◌<>◌,
}
use notification_system.Domain.Notification.{is_valid_channel}
use notification_system.Domain.Validate.Acceptance.{is_valid_channel_iff}
use notification_system.Queue.Topology.{Topology, QueueArgs, infrastructure, exchange_name}

pub route : Topology → String → String → List String
route t exchange key =
    map (λ b. b.queue)
      (filter (λ b. str_eq b.exchange exchange && str_eq b.routing_key key) t.bindings)

dead_letter : Topology → Option QueueArgs → List String
dead_letter t none = []
dead_letter t (some a) = route t a.dead_letter_exchange a.dead_letter_routing_key

reject : Topology → String → List String
reject t queue = elim (find (λ q. str_eq q.name queue) t.queues) [
  | none ↦ []
  | some q ↦ dead_letter t q.args
]

-- The queue of a channel and the queue for what is rejected there.
pub record HasQueues (channel main dead : String) : Type 0 where
  delivered : route infrastructure exchange_name channel ≡ main ∷ []
  rejected : reject infrastructure main ≡ dead ∷ []
  final : reject infrastructure dead ≡ []

pub channels_routed :
    HasQueues "sms" "notifications.sms" "notifications.sms.dlq"
    × HasQueues "email" "notifications.email" "notifications.email.dlq"
    × HasQueues "push" "notifications.push" "notifications.push.dlq"
unfolding route reject dead_letter infrastructure
channels_routed = (
  record { delivered = refl; rejected = refl; final = refl },
  record { delivered = refl; rejected = refl; final = refl },
  record { delivered = refl; rejected = refl; final = refl },
)

-- The names of a channel's queues.
pub HasOwnQueues : String → Type 0
HasOwnQueues channel =
    HasQueues channel ("notifications." <> channel) ("notifications." <> channel <> ".dlq")

-- A message published for one of the three channels reaches exactly the queue of that channel; what
-- is rejected there reaches exactly the channel's dead letter queue, and what is rejected there in
-- turn is dropped.
pub route_channels : (channel : String) → is_valid_channel channel ≡ true → HasOwnQueues channel
unfolding HasOwnQueues
route_channels channel v = elim ((is_valid_channel_iff channel).0 v) [
  | inl sms ↦ rw sms channels_routed.0
  | inr (inl email) ↦ rw email channels_routed.1
  | inr (inr push) ↦ rw push channels_routed.2
]

-- A message published under any other routing key reaches no queue.
pub route_unknown :
    (channel : String)
    → is_valid_channel channel ≡ false
    → route infrastructure exchange_name channel ≡ []
unfolding route infrastructure is_valid_channel
route_unknown channel h = ground (
  arith,
  eq_iff channel "sms",
  eq_iff channel "email",
  eq_iff channel "push",
  eq_iff "sms" channel,
  eq_iff "email" channel,
  eq_iff "push" channel,
)
