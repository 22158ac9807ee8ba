-- ===== src/Queue/Connection.antt =====
-- internal/queue/rabbitmq.go: `NewConnection`, `Channel` and `Close` of the connection. Whether a dial
-- connects, and how long it takes, is the broker's choice, dial by dial.
pub mod Dialled
use notification_system.Base.{
  ℕ, zero, suc, ◌+◌, ◌*◌, String, Option, none, some, Bool, true, false, ◌<>◌, if◌then◌else◌,
}
use notification_system.Domain.Errors.{Result, ok, err, wrapped}
use notification_system.CircuitBreaker.{second}

pub record Dial : Type 0 where
  pub took : ℕ
  pub connects : Bool

-- The loop, with the dials that are left, the number of this one and the time: which dial connected,
-- and the time when the function returns.
unfoldable pub dial_again : (ℕ → Dial) → ℕ → ℕ → ℕ → Option ℕ × ℕ
dial_again dial zero i now = (none, now)
dial_again dial (suc left) i now =
    let dialled = now + (dial i).took in
    let rest = dial_again dial left (suc i) (dialled + 2 * second) in
    if (dial i).connects then (some i, dialled) else rest

unfoldable pub new_connection : (ℕ → Dial) → ℕ → Option ℕ × ℕ
new_connection dial now = dial_again dial 5 0 now

-- `Channel`, by the error that the library returns.
unfoldable pub channel : Option String → Result (Unit {0})
channel none = ok tt
channel (some e) = err (wrapped ("opening channel: " <> e))

-- `Close` of a connection, which is nil or open or closed, by the error that the library returns.
unfoldable pub close : Option Bool → Option String → Result (Unit {0})
close none failure = ok tt
close (some closed) failure =
    if closed then ok tt else elim failure [ none ↦ ok tt | some e ↦ err (wrapped e) ]
