-- ===== src/Queue/Topology.antt =====
-- internal/queue/rabbitmq.go, `DeclareInfrastructure`: the exchanges, queues and bindings that it
-- declares, and where the broker's direct exchanges then take a message.
pub mod Routes
pub mod Declaring
use notification_system.Base.{
  ℕ, String, List, [], ◌∷◌, ◌++◌, map, Option, none, some, Bool, ◌&&◌, str_eq, filter, find,
  if◌then◌else◌,
}

abbrev pub exchange_name : String
exchange_name = "notifications"

abbrev pub dlx_exchange_name : String
dlx_exchange_name = "notifications.dlx"

abbrev pub queue_sms : String
queue_sms = "notifications.sms"

abbrev pub queue_email : String
queue_email = "notifications.email"

abbrev pub queue_push : String
queue_push = "notifications.push"

abbrev pub dl_queue_sms : String
dl_queue_sms = "notifications.sms.dlq"

abbrev pub dl_queue_email : String
dl_queue_email = "notifications.email.dlq"

abbrev pub dl_queue_push : String
dl_queue_push = "notifications.push.dlq"

abbrev pub max_priority : ℕ
max_priority = 10

-- The arguments of a main queue; a dead letter queue has none.
pub record QueueArgs : Type 0 where
  pub max_priority : ℕ
  pub dead_letter_exchange : String
  pub dead_letter_routing_key : String

pub record DeclaredQueue : Type 0 where
  pub name : String
  pub args : Option QueueArgs

pub record Binding : Type 0 where
  pub exchange : String
  pub routing_key : String
  pub queue : String

pub record Topology : Type 0 where
  pub exchanges : List String
  pub queues : List DeclaredQueue
  pub bindings : List Binding

-- One round of the loop over the main queues, and of that over the dead letter queues.
declare_main : String × String × String → Topology → Topology
declare_main (name, key, dlq_key) t = record {
  exchanges = t.exchanges;
  queues =
      t.queues
      ++ record {
        name = name;
        args = some (record {
          max_priority = max_priority;
          dead_letter_exchange = dlx_exchange_name;
          dead_letter_routing_key = dlq_key;
        });
      }
        ∷ [];
  bindings =
      t.bindings ++ record { exchange = exchange_name; routing_key = key; queue = name } ∷ [];
}

declare_dead : String × String → Topology → Topology
declare_dead (name, key) t = record {
  exchanges = t.exchanges;
  queues = t.queues ++ record { name = name; args = none } ∷ [];
  bindings =
      t.bindings ++ record { exchange = dlx_exchange_name; routing_key = key; queue = name } ∷ [];
}

declare_mains : List (String × String × String) → Topology → Topology
declare_mains [] t = t
declare_mains (q ∷ qs) t = declare_mains qs (declare_main q t)

declare_deads : List (String × String) → Topology → Topology
declare_deads [] t = t
declare_deads (q ∷ qs) t = declare_deads qs (declare_dead q t)

-- What stands declared when every call has gone through.
unfoldable pub infrastructure : Topology
unfolding declare_mains declare_deads declare_main declare_dead
infrastructure =
    declare_deads
      ((dl_queue_sms, "sms.dlq") ∷ (dl_queue_email, "email.dlq") ∷ (dl_queue_push, "push.dlq") ∷ [])
      (declare_mains
        ((queue_sms, "sms", "sms.dlq")
          ∷ (queue_email, "email", "email.dlq")
          ∷ (queue_push, "push", "push.dlq")
          ∷ [])
        (record { exchanges = exchange_name ∷ dlx_exchange_name ∷ []; queues = []; bindings = [] }))
