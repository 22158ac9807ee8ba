-- ===== src/Worker/Dispatcher/Released.antt =====
-- What a dispatcher leaves behind.
use notification_system.Base.{
  suc, String, List, [], Option, none, some, Bool, true, false, ◌&&◌, ◌-◌, ◌≡◌, refl, arith,
  if◌then◌else◌, ap,
}
use notification_system.Domain.Errors.{is_ok}
use notification_system.World.{Env, World, Message}
use notification_system.Worker.Processor.{Config, run}
use notification_system.Worker.Dispatcher.{Answers, Channels, start, after_open, after_qos, work}

is_none : Option String → Bool
is_none none = true
is_none (some e) = false

unfoldable pub all_accepted : Answers → Bool
unfolding is_none
all_accepted a = is_none a.opening && (is_none a.qos && is_none a.consume)

Released :
    Env → Config → String → String → Answers → List (Option Message) → Channels → World → Type 0
Released env c name queue_name a bodies s w =
    let r = start env c name queue_name a bodies s w in
    (r.channels ≡ s)
    × (is_ok r.result ≡ all_accepted a)
    × ((r.settled, r.world) ≡ (if all_accepted a then run env c bodies w else ([], w)))

released :
    (env : Env) (c : Config) (name queue_name : String) (o q u : Option String)
    (bodies : List (Option Message)) (s : Channels) (w : World)
    → Released env c name queue_name (record { opening = o; qos = q; consume = u }) bodies s w
unfolding Released start after_open after_qos work all_accepted is_none is_ok
released env c name queue_name (some e) q u bodies s w = (refl, refl, refl)
released env c name queue_name none (some e) u bodies s w =
    (ap (λ k. record s { held = k }) (omega arith), refl, refl)
released env c name queue_name none none (some e) bodies s w =
    (ap (λ k. record s { held = k }) (omega arith), refl, refl)
released env c name queue_name none none none bodies s w =
    let held : suc s.held - 1 ≡ s.held = omega arith in
    let consumers : suc s.consumers - 1 ≡ s.consumers = omega arith in
    (rw (held, consumers) refl, refl, refl)

-- On every branch, `Start` ends with the channels and the consumers that there were before. It handles
-- the deliveries and succeeds if the channel opens and the prefetch and the consumer are accepted;
-- otherwise it returns an error, and handles nothing.
pub start_releases :
    (env : Env) (c : Config) (name queue_name : String) (a : Answers)
    (bodies : List (Option Message)) (s : Channels) (w : World)
    → let r = start env c name queue_name a bodies s w in
      (r.channels ≡ s)
      × (is_ok r.result ≡ all_accepted a)
      × ((r.settled, r.world) ≡ (if all_accepted a then run env c bodies w else ([], w)))
unfolding Released
start_releases env c name queue_name a bodies s w =
    released env c name queue_name a.opening a.qos a.consume bodies s w
