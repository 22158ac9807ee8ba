-- ===== src/Api/Metrics/Queues.antt =====
-- `getQueueDepths`: the passive declarations over one AMQP channel, and the channels that it opens.
-- A failed declaration closes the channel, and the source opens another, whose error it drops: the
-- channel is nil then, and a call on it panics.
pub mod Closed
use notification_system.Base.{
  ℕ, suc, ◌+◌, ◌-◌, String, List, [], ◌∷◌, Option, none, some, Bool, true, false, if◌then◌else◌,
}
use notification_system.Base.Dict.{Dict, put}
use notification_system.Base.Int.{ℤ, pos, negsuc}
use notification_system.Queue.Topology.{
  queue_sms, queue_email, queue_push, dl_queue_sms, dl_queue_email, dl_queue_push,
}

pub record QueueMetrics : Type 0 where
  pub depth : ℤ
  pub dlq_depth : ℤ

-- What the broker answers: whether a channel opens, attempt by attempt, and the messages in a queue,
-- declaration by declaration.
pub record Broker : Type 0 where
  pub opens : ℕ → Bool
  pub messages : ℕ → String → Option ℕ

-- How many channels have been asked for and how many are open, the declarations so far, whether
-- `ch` is a channel or nil, and whether it is still the first one, which `defer` closes.
pub record Session : Type 0 where
  pub attempts : ℕ
  pub held : ℕ
  pub declared : ℕ
  pub usable : Bool
  pub first : Bool

-- `ch.Close()`, which has nothing left to close, and `ch, _ = h.mqConn.Channel()`.
unfoldable pub reopen : Broker → Session → Session
reopen b s =
    if b.opens s.attempts
    then record s { attempts = suc s.attempts; held = suc s.held; usable = true; first = false }
    else record s { attempts = suc s.attempts; usable = false; first = false }

-- One `QueueDeclarePassive` and what follows it; `none` is the panic.
unfoldable pub inspect : Broker → String → Session → Option (ℤ × Session)
unfolding reopen
inspect b name s =
    if s.usable
    then elim (b.messages s.declared name) [
      | some n ↦ some (pos n, record s { declared = suc s.declared })
      | none ↦ some (negsuc 0, reopen b (record s { declared = suc s.declared; held = s.held - 1 }))
    ]
    else none

-- One round of the loop.
unfoldable pub inspect_pair : Broker → String → String → Session → Option (QueueMetrics × Session)
inspect_pair b main dlq s = elim (inspect b main s) [
  | none ↦ none
  | some (d, s') ↦ elim (inspect b dlq s') [
    | none ↦ none
    | some (e, s'') ↦ some (record { depth = d; dlq_depth = e }, s'')
  ]
]

unfoldable pub inspect_all :
    Broker
    → List (String × String × String)
    → Dict QueueMetrics
    → Session
    → Option (Dict QueueMetrics × Session)
inspect_all b [] result s = some (result, s)
inspect_all b ((channel, main, dlq) ∷ queues) result s = elim (inspect_pair b main dlq s) [
  | none ↦ none
  | some (m, s') ↦ inspect_all b queues (put channel m result) s'
]

-- `defer ch.Close()` closes the channel that was opened first.
unfoldable pub close_first : Session → Session
close_first s = if s.first then record s { held = s.held - 1 } else s

abbrev pub queues : List (String × String × String)
queues =
    ("sms", queue_sms, dl_queue_sms)
    ∷ ("email", queue_email, dl_queue_email)
    ∷ ("push", queue_push, dl_queue_push)
    ∷ []

-- No channel could be opened: -1 everywhere.
unfoldable pub unknown_depths :
    List (String × String × String) → Dict QueueMetrics → Dict QueueMetrics
unknown_depths [] result = result
unknown_depths ((channel, main, dlq) ∷ qs) result =
    unknown_depths qs (put channel (record { depth = negsuc 0; dlq_depth = negsuc 0 }) result)

-- The depths, with the number of channels that are left open; `none` is the panic.
unfoldable pub get_queue_depths : Broker → Option (Dict QueueMetrics × ℕ)
get_queue_depths b =
    if b.opens 0
    then elim (inspect_all b queues []
        (record { attempts = 1; held = 1; declared = 0; usable = true; first = true })) [
          | none ↦ none
          | some (result, s) ↦ some (result, (close_first s).held)
        ]
    else some (unknown_depths queues [], 0)
