-- ===== src/Scenarios/Broker.antt =====
-- The theorems on the connection to RabbitMQ, on the metrics, on the WebSocket
-- and on the program's start and end, at concrete inputs.
use notification_system.Base.{
  ℕ, suc, ◌==◌, find, not, String, [], ◌∷◌, Option, none, some, true, false, ◌≡◌, refl, arith,
  if◌then◌else◌, length, ◌&&◌,
}
use notification_system.Base.Dict.{get}
use notification_system.Domain.Errors.{is_ok}
use notification_system.World.{World, call, answered}
use notification_system.Queue.Connection.{Dial, new_connection}
use notification_system.Queue.Connection.Dialled.{ended, new_connection-ended}
use notification_system.Queue.Topology.{
  infrastructure, queue_sms, queue_email, queue_push, dl_queue_sms, dl_queue_email,
}
use notification_system.Queue.Topology.Declaring.{declare_infrastructure, nothing}
use notification_system.Queue.Topology.Declaring.Ended.{first_refusal, Ended}
use notification_system.Queue.Topology.Declaring.Complete.{declare_infrastructure-Ended}
use notification_system.Worker.Processor.{run}
use notification_system.Worker.Dispatcher.{Answers, Channels, start}
use notification_system.Worker.Dispatcher.Released.{all_accepted, start_releases}
use notification_system.Api.Metrics.{statuses, get_notification_counts}
use notification_system.Api.Metrics.Counts.{entry, rows_of, counts_complete}
use notification_system.Api.Metrics.Queues.{Broker, get_queue_depths, queues}
use notification_system.Api.Metrics.Queues.Closed.{
  table, answers, answers_all, panics, get_queue_depths-leaves_open, get_queue_depths-panics,
}
use notification_system.Program.{Outside, main, connected}
use notification_system.Program.Orderly.{IsOrderly, serves, main-IsOrderly}
use notification_system.Scenarios.{config, healthy, resting, delivery}

-- The third dial connects.
abbrev dial : ℕ → Dial
dial i = record { took = 5; connects = i == 2 }

new_connection-ended_example :
    new_connection dial 0 ≡ ended dial 0 (find (λ i. (dial i).connects) (0 ∷ 1 ∷ 2 ∷ 3 ∷ 4 ∷ []))
new_connection-ended_example = new_connection-ended dial 0

-- The broker refuses the fourth call.
abbrev refuses : ℕ → Option String
refuses i = if i == 3 then some "PRECONDITION_FAILED" else none

declare_infrastructure-Ended_example :
    Ended
      (first_refusal refuses 14 0)
      14
      (λ t. infrastructure)
      nothing
      (declare_infrastructure refuses none)
declare_infrastructure-Ended_example = declare_infrastructure-Ended refuses

abbrev no_consumer : Answers
no_consumer = record { opening = none; qos = none; consume = some "NOT_FOUND" }

abbrev two_open : Channels
two_open = record { held = 2; consumers = 1 }

start_releases_example :
    let r =
      start healthy config "sms" queue_sms no_consumer
        (some (delivery "7") ∷ [])
        two_open
        resting in
    (r.channels ≡ two_open)
    × (is_ok r.result ≡ all_accepted no_consumer)
    × ((r.settled, r.world) ≡ (
        if all_accepted no_consumer
        then run healthy config (some (delivery "7") ∷ []) resting
        else ([], resting)))
start_releases_example =
    start_releases healthy config "sms" queue_sms no_consumer (some (delivery "7") ∷ []) two_open
      resting

abbrev counted : World
counted = (call healthy resting).1

answers_call : call healthy resting ≡ (answered, counted)
unfolding call
answers_call = refl

counts_complete_example :
    get "pending" (statuses "sms" (get_notification_counts healthy 0 resting).0)
    ≡ entry (length (rows_of "sms" "pending" counted.rows))
counts_complete_example = counts_complete healthy 0 resting counted answers_call "sms" "pending"

-- The queue of e-mails is not there.
abbrev broker : Broker
broker = record { opens = λ k. true; messages = λ k name. if k == 2 then none else some k }

get_queue_depths-leaves_open_example :
    get_queue_depths broker
    ≡ some (table broker 0 queues [], if answers_all broker 0 queues then 0 else 1)
get_queue_depths-leaves_open_example = get_queue_depths-leaves_open broker (λ k. refl)

-- And there is no second channel.
abbrev exhausted : Broker
exhausted = record broker { opens = λ k. k == 0 }

not_reopened : (k : ℕ) → exhausted.opens (suc k) ≡ false
not_reopened k = ground arith

get_queue_depths-panics_example :
    panics (get_queue_depths exhausted)
    ≡ not (
        answers (exhausted.messages 0 queue_sms)
        && (answers (exhausted.messages 1 dl_queue_sms)
            && (answers (exhausted.messages 2 queue_email)
                && (answers (exhausted.messages 3 dl_queue_email)
                    && answers (exhausted.messages 4 queue_push)))))
get_queue_depths-panics_example = get_queue_depths-panics exhausted refl not_reopened

-- Redis does not answer.
abbrev no_redis : Outside
no_redis = record {
  config = true;
  database_url = true;
  ping = true;
  dial = dial;
  now = 0;
  opening = none;
  refuses = λ k. none;
  new_producer = true;
  redis_url = true;
  redis_ping = false;
  signalled = true;
}

main-IsOrderly_example :
    IsOrderly false [] (main no_redis)
    × (serves (main no_redis) ≡ (
        true
        && (true
            && (true
                && (connected (new_connection dial 0)
                    && (is_ok (declare_infrastructure no_redis.refuses none).0
                        && (true && (true && false))))))))
main-IsOrderly_example = main-IsOrderly no_redis
