-- ===== src/Queue/Topology/Declaring/Complete.antt =====
-- How `DeclareInfrastructure` ends.
use notification_system.Base.{ℕ, ◌<>◌, String, [], ◌∷◌, Option, none, some, refl}
use notification_system.Queue.Connection.{channel}
use notification_system.Queue.Topology.{
  Topology, infrastructure, exchange_name, dlx_exchange_name, max_priority, queue_sms, queue_email,
  queue_push, dl_queue_sms, dl_queue_email, dl_queue_push,
}
use notification_system.Queue.Topology.Declaring.{
  Step, and_then, exchange_declare, declare_main_queue, declare_dead_queue, each, declare_all,
  nothing, declare_infrastructure, add_exchange, add_queue, add_binding,
}
use notification_system.Queue.Topology.Declaring.Ended.{
  first_refusal, Ended, Ends, declare-Ends, and_then-Ends, pair-Ends, three-Ends, Ended-same,
}

module _ (refuses : ℕ → Option String) where
  main_added : String × String × String → Topology → Topology
  main_added (name, key, dlq_key) t = add_binding name key exchange_name (
      add_queue name
        (some (record {
          max_priority = max_priority;
          dead_letter_exchange = dlx_exchange_name;
          dead_letter_routing_key = dlq_key;
        }))
        t)

  dead_added : String × String → Topology → Topology
  dead_added (name, key) t = add_binding name key dlx_exchange_name (add_queue name none t)

  main-Ends :
      (q : String × String × String) → Ends refuses 2 (main_added q) (declare_main_queue refuses q)
  unfolding declare_main_queue main_added
  main-Ends (name, key, dlq_key) =
      pair-Ends refuses ("declaring queue " <> name) ("binding queue " <> name)
        (add_queue name (
          some (record {
            max_priority = max_priority;
            dead_letter_exchange = dlx_exchange_name;
            dead_letter_routing_key = dlq_key;
          })))
        (add_binding name key exchange_name)

  dead-Ends : (q : String × String) → Ends refuses 2 (dead_added q) (declare_dead_queue refuses q)
  unfolding declare_dead_queue dead_added
  dead-Ends (name, key) =
      pair-Ends refuses ("declaring DLQ " <> name) ("binding DLQ " <> name) (add_queue name none)
        (add_binding name key dlx_exchange_name)

  all_added : Topology → Topology
  unfolding main_added dead_added
  all_added t =
      dead_added (dl_queue_push, "push.dlq")
        (dead_added (dl_queue_email, "email.dlq")
          (dead_added (dl_queue_sms, "sms.dlq")
            (main_added (queue_push, "push", "push.dlq")
              (main_added (queue_email, "email", "email.dlq")
                (main_added (queue_sms, "sms", "sms.dlq")
                  (add_exchange dlx_exchange_name (add_exchange exchange_name t)))))))

  declare_all-Ends : Ends refuses 14 all_added (declare_all refuses)
  unfolding declare_all exchange_declare all_added
  declare_all-Ends =
      let dead : Topology → Topology = λ t.
        dead_added (dl_queue_push, "push.dlq")
          (dead_added (dl_queue_email, "email.dlq") (dead_added (dl_queue_sms, "sms.dlq") t)) in
      let main : Topology → Topology = λ t.
        main_added (queue_push, "push", "push.dlq")
          (main_added (queue_email, "email", "email.dlq")
            (main_added (queue_sms, "sms", "sms.dlq") t)) in
      let mains : Step = each (declare_main_queue refuses) (
        (queue_sms, "sms", "sms.dlq")
        ∷ (queue_email, "email", "email.dlq")
        ∷ (queue_push, "push", "push.dlq")
        ∷ []) in
      let deads : Step = each (declare_dead_queue refuses) (
        (dl_queue_sms, "sms.dlq")
        ∷ (dl_queue_email, "email.dlq")
        ∷ (dl_queue_push, "push.dlq")
        ∷ []) in
      and_then-Ends refuses 1 13 (add_exchange exchange_name)
        (λ t. dead (main (add_exchange dlx_exchange_name t)))
        (exchange_declare refuses exchange_name)
        (λ s.
          and_then (exchange_declare refuses dlx_exchange_name s) (λ r. and_then (mains r) deads))
        (declare-Ends refuses ("declaring exchange " <> exchange_name) (add_exchange exchange_name))
        (and_then-Ends refuses 1 12 (add_exchange dlx_exchange_name) (λ t. dead (main t))
          (exchange_declare refuses dlx_exchange_name) (λ r. and_then (mains r) deads)
          (declare-Ends refuses ("declaring exchange " <> dlx_exchange_name)
            (add_exchange dlx_exchange_name))
          (and_then-Ends refuses 6 6 main dead mains deads
            (three-Ends refuses (declare_main_queue refuses) main_added main-Ends
              (queue_sms, "sms", "sms.dlq") (queue_email, "email", "email.dlq")
              (queue_push, "push", "push.dlq"))
            (three-Ends refuses (declare_dead_queue refuses) dead_added dead-Ends
              (dl_queue_sms, "sms.dlq") (dl_queue_email, "email.dlq") (dl_queue_push, "push.dlq"))))

  -- On a broker that has nothing declared, over a channel that opens, the function makes fourteen calls
  -- unless one is refused. If none is, it succeeds and exactly the infrastructure is declared; otherwise
  -- it returns an error, and the first refused call is the last one that it makes.
  pub declare_infrastructure-Ended :
      Ended
        (first_refusal refuses 14 0)
        14
        (λ t. infrastructure)
        nothing
        (declare_infrastructure refuses none)
  unfolding declare_infrastructure channel infrastructure all_added main_added dead_added
  declare_infrastructure-Ended =
      Ended-same refuses (first_refusal refuses 14 0) 14 all_added (λ t. infrastructure) nothing
        (declare_infrastructure refuses none) refl (declare_all-Ends nothing)
