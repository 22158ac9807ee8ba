-- ===== src/Scenarios/Threads.antt =====
-- The theorems on workers side by side, at concrete systems.
use notification_system.Base.{ℕ, suc, ◌*◌, ◌≤◌, [], some, ◌≡◌, ◌≢◌, refl, length}
use notification_system.CircuitBreaker.{allow, closed, opened, half_open, second, new}
use notification_system.World.{World}
use notification_system.CircuitBreaker.Counters.{new-Inv}
use notification_system.Worker.Processor.{process}
use notification_system.Worker.Threads.{asking, begin, step}
use notification_system.Worker.Threads.Alone.{Ends}
use notification_system.Worker.Threads.Refined.{begin-Ends}
use notification_system.Worker.Threads.System.{
  System, update, records, moved, move, Reach, here, next,
}
use notification_system.Worker.Threads.Effects.{in_flight}
use notification_system.Worker.Threads.Isolation.{Only, NoneInFlight}
use notification_system.Worker.Threads.Probe.{probe_alone, system_stuck}
use notification_system.Worker.Threads.Invariant.{IsSound, Reach-IsSound}
use notification_system.Scenarios.{
  config, two_rows-IsTable, healthy, pending, two_rows, resting, world, delivery,
}

begin-Ends_example :
    Ends healthy config
      (begin healthy (some (delivery "7")), resting)
      (process healthy config (some (delivery "7")) resting)
begin-Ends_example = begin-Ends healthy config (some (delivery "7")) resting

-- An open breaker whose timeout has run out, and workers that are about to ask it.
abbrev due : World
due = record (world two_rows (record (new 0) { state = opened; last_failure = 1 })) {
  now = 31 * second;
}

abbrev at_breaker : World → System
at_breaker w = record { world = w; place = λ j. asking 7 (delivery "7") (pending 7); outcomes = 0 }

at_breaker-NoneInFlight : (w : World) → NoneInFlight (at_breaker w).place
unfolding in_flight
at_breaker-NoneInFlight w j = refl

-- Worker 0 asks, then worker 1, and worker 0 goes on to the rate limiter.
abbrev turn : ℕ → System → System
turn i s = moved healthy config s i (s.place i)

abbrev turns : System → System
turns s = turn 0 (turn 1 (turn 0 s))

turns-Reach : (s : System) → Reach healthy config s (turns s)
turns-Reach s = next (next (next here (move 0)) (move 1)) (move 0)

turns_outcomes : (turns (at_breaker due)).outcomes ≡ 0
unfolding update step records allow new
turns_outcomes = refl

probe_alone_example :
    (length (turns (at_breaker due)).world.requests ≤ suc 0)
    × ((turns (at_breaker due)).world.breaker.state ≢ closed)
    × (i : ℕ) × Only i (turns (at_breaker due)).place
probe_alone_example =
    probe_alone healthy config (at_breaker due) (turns (at_breaker due)) refl
      (at_breaker-NoneInFlight due) (turns-Reach (at_breaker due)) turns_outcomes

abbrev probing : World
probing = world two_rows (record (new 0) { state = half_open })

system_stuck_example :
    ((turns (at_breaker probing)).world.requests ≡ [])
    × ((turns (at_breaker probing)).world.breaker.state ≡ half_open)
system_stuck_example =
    system_stuck healthy config (at_breaker probing) (turns (at_breaker probing)) refl
      (at_breaker-NoneInFlight probing) (turns-Reach (at_breaker probing))

resting-IsSound : IsSound resting
resting-IsSound = record { table = two_rows-IsTable; breaker = new-Inv 0 }

Reach-IsSound_example : IsSound (turns (at_breaker resting)).world
Reach-IsSound_example = Reach-IsSound (turns-Reach (at_breaker resting)) resting-IsSound
