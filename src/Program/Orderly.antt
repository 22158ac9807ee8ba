-- ===== src/Program/Orderly.antt =====
-- In which order the program opens, starts, stops and closes.
use notification_system.Base.{none, some, List, [], ◌∷◌, ◌++◌, Bool, true, false, ◌&&◌, ◌≡◌, refl}
use notification_system.Domain.Errors.{is_ok}
use notification_system.Queue.Connection.{new_connection}
use notification_system.Queue.Topology.Declaring.{declare_infrastructure}
use notification_system.Program.{
  Resource, database, rabbitmq, producer, redis, poller, scheduler, server, dispatcher, Event,
  opened, closed, started, cancelled, waited, shut_down, exited, Outside, stages, through, serving,
  stopping, main, connected, opening, deferring,
}

-- With these resources open, the last one first, the events are in order: a task is started only
-- while all four are open, only the last one is closed, and not before the dispatchers have ended;
-- the program is over with an exit, or when nothing is open.
unfoldable pub IsOrderly : Bool → List Resource → List Event → Type 0
IsOrderly ended held [] = held ≡ []
IsOrderly ended held (opened r ∷ events) = IsOrderly ended (r ∷ held) events
IsOrderly ended held (closed r ∷ events) =
    (ended ≡ true) × (rest : List Resource) × (held ≡ r ∷ rest) × IsOrderly ended rest events
IsOrderly ended held (started t ∷ events) =
    (held ≡ redis ∷ producer ∷ rabbitmq ∷ database ∷ []) × IsOrderly ended held events
IsOrderly ended held (cancelled ∷ events) = IsOrderly ended held events
IsOrderly ended held (waited ∷ events) = IsOrderly true held events
IsOrderly ended held (shut_down ∷ events) = IsOrderly ended held events
IsOrderly ended held (exited ∷ events) = events ≡ []

-- The server is started.
unfoldable pub serves : List Event → Bool
serves [] = false
serves (started server ∷ events) = true
serves (started poller ∷ events) = serves events
serves (started scheduler ∷ events) = serves events
serves (started (dispatcher channel) ∷ events) = serves events
serves (opened r ∷ events) = serves events
serves (closed r ∷ events) = serves events
serves (cancelled ∷ events) = serves events
serves (waited ∷ events) = serves events
serves (shut_down ∷ events) = serves events
serves (exited ∷ events) = serves events

stopping-IsOrderly :
    (signalled : Bool)
    → IsOrderly false
        (redis ∷ producer ∷ rabbitmq ∷ database ∷ [])
        (serving ++ stopping signalled (redis ∷ producer ∷ rabbitmq ∷ database ∷ []))
unfolding IsOrderly serving stopping
stopping-IsOrderly true = (
  refl,
  (
    refl,
    (
      refl,
      (
        refl,
        (
          refl,
          (
            refl,
            (
              refl,
              producer ∷ rabbitmq ∷ database ∷ [],
              refl,
              (
                refl,
                rabbitmq ∷ database ∷ [],
                refl,
                (refl, database ∷ [], refl, (refl, [], refl, refl)),
              ),
            ),
          ),
        ),
      ),
    ),
  ),
)
stopping-IsOrderly false = (refl, (refl, (refl, (refl, (refl, (refl, refl))))))

serving-serves :
    (signalled : Bool) (deferred : List Resource)
    → serves (serving ++ stopping signalled deferred) ≡ true
unfolding serves serving
serving-serves signalled deferred = refl

start-IsOrderly :
    (b1 b2 b3 b4 b5 b6 b7 b8 : Bool) (rest : List Resource → List Event)
    → IsOrderly false
        (redis ∷ producer ∷ rabbitmq ∷ database ∷ [])
        (rest (redis ∷ producer ∷ rabbitmq ∷ database ∷ []))
    → IsOrderly false [] (
        through
          ((b1, none)
            ∷ (b2, some database)
            ∷ (b3, none)
            ∷ (b4, some rabbitmq)
            ∷ (b5, none)
            ∷ (b6, some producer)
            ∷ (b7, some redis)
            ∷ (b8, none)
            ∷ [])
          []
          rest)
unfolding IsOrderly through opening deferring
start-IsOrderly false b2 b3 b4 b5 b6 b7 b8 rest h = refl
start-IsOrderly true false b3 b4 b5 b6 b7 b8 rest h = refl
start-IsOrderly true true false b4 b5 b6 b7 b8 rest h = refl
start-IsOrderly true true true false b5 b6 b7 b8 rest h = refl
start-IsOrderly true true true true false b6 b7 b8 rest h = refl
start-IsOrderly true true true true true false b7 b8 rest h = refl
start-IsOrderly true true true true true true false b8 rest h = refl
start-IsOrderly true true true true true true true false rest h = refl
start-IsOrderly true true true true true true true true rest h = h

start-serves :
    (b1 b2 b3 b4 b5 b6 b7 b8 : Bool) (rest : List Resource → List Event)
    → serves (rest (redis ∷ producer ∷ rabbitmq ∷ database ∷ [])) ≡ true
    → serves (
        through
          ((b1, none)
            ∷ (b2, some database)
            ∷ (b3, none)
            ∷ (b4, some rabbitmq)
            ∷ (b5, none)
            ∷ (b6, some producer)
            ∷ (b7, some redis)
            ∷ (b8, none)
            ∷ [])
          []
          rest)
      ≡ (b1 && (b2 && (b3 && (b4 && (b5 && (b6 && (b7 && b8)))))))
unfolding serves through opening deferring
start-serves false b2 b3 b4 b5 b6 b7 b8 rest h = refl
start-serves true false b3 b4 b5 b6 b7 b8 rest h = refl
start-serves true true false b4 b5 b6 b7 b8 rest h = refl
start-serves true true true false b5 b6 b7 b8 rest h = refl
start-serves true true true true false b6 b7 b8 rest h = refl
start-serves true true true true true false b7 b8 rest h = refl
start-serves true true true true true true false b8 rest h = refl
start-serves true true true true true true true false rest h = refl
start-serves true true true true true true true true rest h = h

-- Whatever the outside answers, the program starts its tasks only when the database, RabbitMQ, the
-- producer and Redis are open; it closes them in the opposite order, after its dispatchers have ended;
-- and it leaves one open only by an exit, which is the last thing that it does. It serves if and only if
-- every call of the start goes through.
pub main-IsOrderly :
    (o : Outside)
    → IsOrderly false [] (main o)
      × (serves (main o) ≡ (
          o.config
          && (o.database_url
              && (o.ping
                  && (connected (new_connection o.dial o.now)
                      && (is_ok (declare_infrastructure o.refuses o.opening).0
                          && (o.new_producer && (o.redis_url && o.redis_ping))))))))
unfolding main stages
main-IsOrderly o =
    let c = connected (new_connection o.dial o.now) in
    let rest : List Resource → List Event = λ deferred. serving ++ stopping o.signalled deferred in
    let d = is_ok (declare_infrastructure o.refuses o.opening).0 in
    (
      start-IsOrderly o.config o.database_url o.ping c d o.new_producer o.redis_url o.redis_ping
          rest (stopping-IsOrderly o.signalled),
      start-serves o.config o.database_url o.ping c d o.new_producer o.redis_url o.redis_ping rest
          (serving-serves o.signalled (redis ∷ producer ∷ rabbitmq ∷ database ∷ [])),
    )
