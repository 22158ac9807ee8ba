-- ===== src/Worker/Threads/Probe.antt =====
-- An open breaker's probes, and a half-open breaker without one, in the system of workers.
use notification_system.Base.{ℕ, suc, ◌≤◌, List, ◌≡◌, ◌≢◌, refl, length, arith, ◌∙◌}
use notification_system.World.{Env, World, WebhookRequest}
use notification_system.CircuitBreaker.{closed, opened, half_open}
use notification_system.CircuitBreaker.Recovery.{allow_half_open}
use notification_system.Repository.Lifecycle.{apply-OnlyRows}
use notification_system.Worker.Processor.{Config, Settlement}
use notification_system.Worker.Threads.{Place, settled, step, begin}
use notification_system.Worker.Threads.System.{
  System, update, records, Step, take, move, write, pass, Reach, here, next,
}
use notification_system.Worker.Threads.Effects.{
  Effect, aside, asks, posts, notes, step-Effect, begin-in_flight, records-in_flight,
}
use notification_system.Worker.Threads.Isolation.{
  Only, NoneInFlight, Phase, shut, probing, probed, Effect-Phase, same-Phase, calm-Phase,
  update-NoneInFlight,
}

settled-records : {p : Place} (s : Settlement) → p ≡ settled s → records p ≡ 0
unfolding records
settled-records s e = rw e refl

Step-outcomes : {env : Env} {c : Config} {s t : System} → Step env c s t → s.outcomes ≤ t.outcomes
Step-outcomes (take i last body e) = omega arith
Step-outcomes (move i) = omega arith
Step-outcomes (write o) = omega arith
Step-outcomes (pass d) = omega arith

Reach-outcomes : {env : Env} {c : Config} {s t : System} → Reach env c s t → s.outcomes ≤ t.outcomes
Reach-outcomes here = omega arith
Reach-outcomes (next r st) = omega (arith, Reach-outcomes r, Step-outcomes st)

Step-Phase :
    {env : Env} {c : Config} {s t : System} {sent : ℕ}
    → Step env c s t
    → t.outcomes ≡ s.outcomes
    → Phase sent s.world s.place
    → Phase sent t.world t.place
Step-Phase {env} {c} {s} (take i last body e) same h =
    calm-Phase i (begin env body) (settled-records last e) (begin-in_flight env body) refl refl h
Step-Phase {env} {c} {s} (move i) same h =
    let p = s.place i in
    Effect-Phase i (step env c p s.world).0 (omega arith) (step-Effect env c p s.world) h
Step-Phase {env} {c} {s} (write o) same h =
    let only = apply-OnlyRows env o s.world in same-Phase only.breaker only.requests h
Step-Phase (pass d) same h = same-Phase refl refl h

Reach-Phase :
    {env : Env} {c : Config} {s t : System} {sent : ℕ}
    → Reach env c s t
    → t.outcomes ≡ s.outcomes
    → Phase sent s.world s.place
    → Phase sent t.world t.place
Reach-Phase here same h = h
Reach-Phase (next r st) same h =
    let there = Reach-outcomes r in
    let on = Step-outcomes st in Step-Phase st (omega arith) (Reach-Phase r (omega arith) h)

Phase-sent :
    {sent : ℕ} {w : World} {place : ℕ → Place}
    → Phase sent w place
    → (length w.requests ≤ suc sent) × (w.breaker.state ≢ closed) × (i : ℕ) × Only i place
Phase-sent (shut o h l) = (omega arith, λ e. cc, 0, λ j d. h j)
Phase-sent (probing i o h l) = (omega arith, λ e. cc, i, h)
Phase-sent (probed i o h r l) = (l, λ e. cc, i, h)

-- One probe at a time, however many workers share the breaker: from an open breaker with no worker
-- between `Allow` and the outcome, in every interleaving of the workers' steps, of other writes to
-- the table and of time, as long as no outcome is recorded, at most one more request leaves, the
-- breaker does not close, and at most one worker has been let through.
pub probe_alone :
    (env : Env) (c : Config) (s t : System)
    → s.world.breaker.state ≡ opened
    → NoneInFlight s.place
    → Reach env c s t
    → t.outcomes ≡ s.outcomes
    → (length t.world.requests ≤ suc (length s.world.requests))
      × (t.world.breaker.state ≢ closed)
      × (i : ℕ) × Only i t.place
probe_alone env c s t o h r same = Phase-sent (Reach-Phase r same (shut o h (omega arith)))

-- Nobody is in flight, the breaker is half-open, and no more than `sent` has been sent.
record IsStuck (sent : List WebhookRequest) (w : World) (place : ℕ → Place) : Type 0 where
  half : w.breaker.state ≡ half_open
  calm : NoneInFlight place
  requests : w.requests ≡ sent

Effect-IsStuck :
    {sent : List WebhookRequest} {w w' : World} {place : ℕ → Place} (j : ℕ) (p : Place)
    → Effect (place j) w p w'
    → IsStuck sent w place
    → IsStuck sent w' (update place j p)
Effect-IsStuck {sent} {w} {w'} {place} j p (aside z b q f) h = record {
  half = rw b h.half;
  calm = update-NoneInFlight place j p h.calm (f (h.calm j));
  requests = q ∙ h.requests;
}
Effect-IsStuck {sent} {w} {w'} {place} j p (asks f b q a) h =
    let (half, refused) = allow_half_open w.now w.breaker h.half in
    record {
      half = rw b half;
      calm = update-NoneInFlight place j p h.calm (a ∙ refused);
      requests = q ∙ h.requests;
    }
Effect-IsStuck {sent} {w} {w'} {place} j p (posts f z one b q) h = let e = h.calm j in absurd cc
Effect-IsStuck {sent} {w} {w'} {place} j p (notes one) h =
    let e = h.calm j in let f = records-in_flight (place j) one in absurd cc

Step-IsStuck :
    {env : Env} {c : Config} {s t : System} {sent : List WebhookRequest}
    → Step env c s t
    → IsStuck sent s.world s.place
    → IsStuck sent t.world t.place
Step-IsStuck {env} {c} {s} (take i last body e) h = record {
  half = h.half;
  calm = update-NoneInFlight s.place i (begin env body) h.calm (begin-in_flight env body);
  requests = h.requests;
}
Step-IsStuck {env} {c} {s} (move i) h = Effect-IsStuck i _ (step-Effect env c (s.place i) s.world) h
Step-IsStuck {env} {c} {s} (write o) h =
    let only = apply-OnlyRows env o s.world in
    record { half = rw (only.breaker) h.half; calm = h.calm; requests = only.requests ∙ h.requests }
Step-IsStuck (pass d) h = record { half = h.half; calm = h.calm; requests = h.requests }

Reach-IsStuck :
    {env : Env} {c : Config} {s t : System} {sent : List WebhookRequest}
    → Reach env c s t
    → IsStuck sent s.world s.place
    → IsStuck sent t.world t.place
Reach-IsStuck here h = h
Reach-IsStuck (next r st) h = Step-IsStuck st (Reach-IsStuck r h)

-- A half-open breaker with no worker between `Allow` and the outcome is stuck: in every interleaving
-- of any number of workers, of other writes to the table and of time, no request leaves and the
-- breaker stays half-open.
pub system_stuck :
    (env : Env) (c : Config) (s t : System)
    → s.world.breaker.state ≡ half_open
    → NoneInFlight s.place
    → Reach env c s t
    → (t.world.requests ≡ s.world.requests) × (t.world.breaker.state ≡ half_open)
system_stuck env c s t o h r =
    let stuck = Reach-IsStuck r (record { half = o; calm = h; requests = refl }) in
    (stuck.requests, stuck.half)
