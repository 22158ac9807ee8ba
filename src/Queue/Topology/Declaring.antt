-- ===== src/Queue/Topology/Declaring.antt =====
-- `DeclareInfrastructure` with the errors: the calls in their order, of which the broker may refuse any.
pub mod Ended
pub mod Complete
use notification_system.Base.{
  ℕ, suc, String, List, [], ◌∷◌, ◌++◌, Option, none, some, ◌<>◌, ◌≡◌, refl, ◌∙◌, ap,
}
use notification_system.Domain.Errors.{Result, ok, err, wrapped}
use notification_system.Queue.Connection.{channel}
use notification_system.Queue.Topology.{
  Topology, DeclaredQueue, QueueArgs, Binding, infrastructure, exchange_name, dlx_exchange_name,
  max_priority, queue_sms, queue_email, queue_push, dl_queue_sms, dl_queue_email, dl_queue_push,
}

-- The number of calls so far, and what they have declared.
pub record Declared : Type 0 where
  pub calls : ℕ
  pub topology : Topology

abbrev Step : Type 0
Step = Declared → Result (Unit {0}) × Declared

abbrev pub and_then : Result (Unit {0}) × Declared → Step → Result (Unit {0}) × Declared
and_then (ok _, s) next = next s
and_then (err e, s) next = (err e, s)

-- One call, by the error that the broker answers it with, `refuses`.
unfoldable pub declare : (ℕ → Option String) → String → (Topology → Topology) → Step
declare refuses what f s = elim (refuses s.calls) [
  | none ↦ (ok tt, record { calls = suc s.calls; topology = f s.topology })
  | some e ↦ (err (wrapped (what <> ": " <> e)), record s { calls = suc s.calls })
]

abbrev add_exchange : String → Topology → Topology
add_exchange name t = record t { exchanges = t.exchanges ++ name ∷ [] }

abbrev add_queue : String → Option QueueArgs → Topology → Topology
add_queue name args t = record t { queues = t.queues ++ record { name = name; args = args } ∷ [] }

abbrev add_binding : String → String → String → Topology → Topology
add_binding name key exchange t = record t {
  bindings = t.bindings ++ record { exchange = exchange; routing_key = key; queue = name } ∷ [];
}

unfoldable pub exchange_declare : (ℕ → Option String) → String → Step
exchange_declare refuses name = declare refuses ("declaring exchange " <> name) (add_exchange name)

-- One round of the loop over the main queues, and of that over the dead letter queues.
unfoldable pub declare_main_queue : (ℕ → Option String) → String × String × String → Step
declare_main_queue refuses (name, key, dlq_key) s =
    and_then
      (declare refuses ("declaring queue " <> name)
        (add_queue name (
          some (record {
            max_priority = max_priority;
            dead_letter_exchange = dlx_exchange_name;
            dead_letter_routing_key = dlq_key;
          })))
        s)
      (declare refuses ("binding queue " <> name) (add_binding name key exchange_name))

unfoldable pub declare_dead_queue : (ℕ → Option String) → String × String → Step
declare_dead_queue refuses (name, key) s =
    and_then (declare refuses ("declaring DLQ " <> name) (add_queue name none) s)
      (declare refuses ("binding DLQ " <> name) (add_binding name key dlx_exchange_name))

unfoldable pub each {ℓ} : {A : Type ℓ} → (A → Step) → List A → Step
each step [] s = (ok tt, s)
each step (a ∷ rest) s = and_then (step a s) (each step rest)

unfoldable pub declare_all : (ℕ → Option String) → Step
unfolding each
declare_all refuses s = and_then (exchange_declare refuses exchange_name s) (λ s1.
    and_then (exchange_declare refuses dlx_exchange_name s1) (λ s2.
      and_then
        (each (declare_main_queue refuses)
          ((queue_sms, "sms", "sms.dlq")
            ∷ (queue_email, "email", "email.dlq")
            ∷ (queue_push, "push", "push.dlq")
            ∷ [])
          s2)
        (each (declare_dead_queue refuses) (
          (dl_queue_sms, "sms.dlq")
          ∷ (dl_queue_email, "email.dlq")
          ∷ (dl_queue_push, "push.dlq")
          ∷ []))))

abbrev pub nothing : Declared
nothing = record { calls = 0; topology = record { exchanges = []; queues = []; bindings = [] } }

-- `DeclareInfrastructure` on a broker that has nothing declared, by the error of opening the channel.
unfoldable pub declare_infrastructure :
    (ℕ → Option String) → Option String → Result (Unit {0}) × Declared
declare_infrastructure refuses opening = and_then (channel opening, nothing) (declare_all refuses)
