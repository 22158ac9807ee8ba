-- ===== src/Worker/Dispatcher.antt =====
-- internal/worker/dispatcher.go, `Start`: the AMQP channel, the prefetch and the consumer, whose
-- deliveries the workers take until the context is cancelled. How often each call of the broker
-- fails is the broker's choice. The deliveries are handled one after the other, in the order in which
-- the workers take them.
pub mod Released
use notification_system.Base.{
  ℕ, suc, ◌-◌, ◌+◌, String, List, [], Option, none, some, Bool, true, false, ◌&&◌, ◌≡◌, refl, arith,
  ◌<>◌,
}
use notification_system.Domain.Errors.{Result, ok, err, wrapped, Error}
use notification_system.World.{Env, World, Message}
use notification_system.Queue.Connection.{channel}
use notification_system.Worker.Processor.{Config, Settlement, run}

-- The errors of `Channel`, `Qos` and `Consume`, `none` where the call goes through.
pub record Answers : Type 0 where
  pub opening : Option String
  pub qos : Option String
  pub consume : Option String

-- The channels that are open on the connection, and the consumers on them.
pub record Channels : Type 0 where
  pub held : ℕ
  pub consumers : ℕ

pub record Stopped : Type 0 where
  pub result : Result (Unit {0})
  pub settled : List Settlement
  pub channels : Channels
  pub world : World

-- `ch.Close()`
abbrev closed_channel : Channels → Channels
closed_channel s = record s { held = s.held - 1 }

unfoldable pub failed : String → String → Error
failed what e = wrapped (what <> ": " <> e)

-- The workers, until the context is cancelled; then `Cancel`, `wg.Wait` and `Close`.
unfoldable pub work : Env → Config → List (Option Message) → Channels → World → Stopped
work env c bodies s w =
    let consuming : Channels = record s { consumers = suc s.consumers } in
    let (settled, w') = run env c bodies w in
    let cancelled : Channels = record consuming { consumers = consuming.consumers - 1 } in
    record { result = ok tt; settled = settled; channels = closed_channel cancelled; world = w' }

unfoldable pub after_qos :
    Env → Config → String → Option String → List (Option Message) → Channels → World → Stopped
unfolding work failed
after_qos env c queue_name (some e) bodies s w = record {
  result = err (failed ("consuming from " <> queue_name) e);
  settled = [];
  channels = closed_channel s;
  world = w;
}
after_qos env c queue_name none bodies s w = work env c bodies s w

unfoldable pub after_open :
    Env → Config → String → String → Answers → List (Option Message) → Channels → World → Stopped
after_open env c name queue_name a bodies s w = elim a.qos [
  | some e ↦ record {
    result = err (failed ("setting QoS for " <> name) e);
    settled = [];
    channels = closed_channel s;
    world = w;
  }
  | none ↦ after_qos env c queue_name a.consume bodies s w
]

-- `Start`; `bodies` are the deliveries that the workers take before it is cancelled.
unfoldable pub start :
    Env → Config → String → String → Answers → List (Option Message) → Channels → World → Stopped
unfolding after_open after_qos
start env c name queue_name a bodies s w = elim a.opening [
  | some e ↦ record {
    result =
        err (failed ("opening channel for " <> name <> " dispatcher") ("opening channel: " <> e));
    settled = [];
    channels = s;
    world = w;
  }
  | none ↦ after_open env c name queue_name a bodies (record s { held = suc s.held }) w
]
