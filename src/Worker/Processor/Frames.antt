-- ===== src/Worker/Processor/Frames.antt =====
-- The stages of `Process` before the provider: what they leave alone.
use notification_system.Base.{
  ◌≤◌, ℕ, String, List, [], ◌∷◌, Option, none, some, Bool, true, false, ◌≡◌, ◌≢◌, refl, arith, ◌∙◌,
  ap,
}
use notification_system.Domain.Errors.{Result, ok, err}
use notification_system.Domain.Notification.{Notification}
use notification_system.World.{Env, World, Message, call, sleep_until, WebhookRequest}
use notification_system.CircuitBreaker
use notification_system.CircuitBreaker.{CircuitBreaker, half_open, opened}
use notification_system.CircuitBreaker.Recovery.{allow_half_open, allow_opened}
use notification_system.RateLimiter.Wait.Keeps.{wait-keeps}
use notification_system.RateLimiter.Wait.{Waited, passed, timed_out, cancelled, exhausted, wait}
use notification_system.Repository.Sql.{update, query}
use notification_system.Repository.Notifications.{get_by_id, update_status}
use notification_system.Worker.Processor.{
  Config, notify, after_wait, after_allow, dispatch, after_mark, mark, backoff_wait, after_backoff,
  after_get, with_id, process, run,
}

-- Nothing was sent, and the circuit breaker is the same.
pub record Quiet (w w' : World) : Type 0 where
  pub requests : w'.requests ≡ w.requests
  pub breaker : w'.breaker ≡ w.breaker
  pub bucket : w'.bucket ≡ w.bucket
  pub now : w.now ≤ w'.now

pub get_by_id-Quiet : (env : Env) (id : ℕ) (w : World) → Quiet w (get_by_id env id w).1
unfolding get_by_id query call
get_by_id-Quiet env id w = ground arith

pub update_status-Quiet :
    (env : Env) (id : ℕ) (status : String) (w : World) → Quiet w (update_status env id status w).1
unfolding update_status update call
update_status-Quiet env id status w = ground arith

pub notify-Quiet :
    (env : Env) (id : ℕ) (status channel : String) (w : World)
    → Quiet w (notify env id status channel w)
unfolding notify call
notify-Quiet env id status channel w = ground arith

pub backoff_wait-Quiet : (env : Env) (t : Option ℕ) (w : World) → Quiet w (backoff_wait env t w).1
unfolding backoff_wait sleep_until
backoff_wait-Quiet env t w = ground arith

-- Nothing more was sent than `sent`, and the breaker is half-open.
abbrev pub IsStuck : List WebhookRequest → World → Type 0
IsStuck sent w = (w.requests ≡ sent) × (w.breaker.state ≡ half_open)

Quiet-IsStuck :
    {sent : List WebhookRequest} {w w' : World} → Quiet w w' → IsStuck sent w → IsStuck sent w'
Quiet-IsStuck q (r, b) = (q.requests ∙ r, rw (q.breaker) b)

module _ (env : Env) (c : Config) (msg : Message) (sent : List WebhookRequest) where
  dispatch-IsStuck :
      (id : ℕ) (n : Notification) (w : World)
      → IsStuck sent w
      → IsStuck sent (dispatch env c id msg n w).1
  unfolding dispatch
  dispatch-IsStuck id n w (r, b) =
      let (still, refused) = allow_half_open w.now w.breaker b in
      rw (refused, after_allow) (r, still)

  after_mark-IsStuck :
      (id : ℕ) (n : Notification) (r : Result (Unit {0})) (w : World)
      → IsStuck sent w
      → IsStuck sent (after_mark env c id msg n (r, w)).1
  unfolding after_mark
  after_mark-IsStuck id n (err e) w s = s
  after_mark-IsStuck id n (ok _) w s =
      dispatch-IsStuck id n _ (Quiet-IsStuck (notify-Quiet env id _ msg.channel w) s)

  after_backoff-IsStuck :
      (id : ℕ) (n : Notification) (b : Bool) (w : World)
      → IsStuck sent w
      → IsStuck sent (after_backoff env c id msg n (b, w)).1
  unfolding after_backoff mark
  after_backoff-IsStuck id n false w s = s
  after_backoff-IsStuck id n true w s =
      after_mark-IsStuck id n _ _ (Quiet-IsStuck (update_status-Quiet env id _ w) s)

  after_get-IsStuck :
      (id : ℕ) (r : Result Notification) (w : World)
      → IsStuck sent w
      → IsStuck sent (after_get env c id msg (r, w)).1
  unfolding after_get
  after_get-IsStuck id (err e) w s = s
  after_get-IsStuck id (ok n) w s =
      after_backoff-IsStuck id n _ _ (Quiet-IsStuck (backoff_wait-Quiet env n.next_retry_at w) s)

  with_id-IsStuck :
      (o : Option ℕ) (w : World) → IsStuck sent w → IsStuck sent (with_id env c msg o w).1
  unfolding with_id
  with_id-IsStuck none w s = s
  with_id-IsStuck (some id) w s =
      after_get-IsStuck id _ _ (Quiet-IsStuck (get_by_id-Quiet env id w) s)

process-IsStuck :
    (env : Env) (c : Config) (sent : List WebhookRequest) (body : Option Message) (w : World)
    → IsStuck sent w
    → IsStuck sent (process env c body w).1
unfolding process
process-IsStuck env c sent none w s = s
process-IsStuck env c sent (some msg) w s = with_id-IsStuck env c msg sent _ w s

-- While the breaker is half-open a worker sends nothing, whatever deliveries it takes and however
-- much time passes, and the breaker is half-open afterwards.
pub run_stuck :
    (env : Env) (c : Config) (bodies : List (Option Message)) (w : World)
    → w.breaker.state ≡ half_open
    → ((run env c bodies w).1.requests ≡ w.requests)
      × ((run env c bodies w).1.breaker.state ≡ half_open)
unfolding run
run_stuck env c bodies w b = go bodies w (refl, b)
  where
    go :
        (bs : List (Option Message)) (v : World)
        → IsStuck w.requests v
        → IsStuck w.requests (run env c bs v).1
    go [] v s = s
    go (body ∷ bs) v s = go bs (process env c body v).1 (process-IsStuck env c w.requests body v s)

after_wait_lost :
    (env : Env) (c : Config) (id : ℕ) (msg : Message) (n : Notification) (r : Waited) (w : World)
    → r ≢ passed
    → (after_wait env c id msg n (r, w)).1 ≡ w
unfolding after_wait
after_wait_lost env c id msg n passed w h = absurd (h refl)
after_wait_lost env c id msg n timed_out w h = refl
after_wait_lost env c id msg n cancelled w h = refl
after_wait_lost env c id msg n exhausted w h = refl

allow_probe :
    (now : ℕ) (cb : CircuitBreaker)
    → cb.state ≡ opened
    → (CircuitBreaker.allow now cb).1 ≡ true
    → (CircuitBreaker.allow now cb).0.state ≡ half_open
allow_probe now cb o allowed = ground (arith, allow_opened now cb o)

-- A probe is lost when the rate limiter's wait ends without a pass: an open breaker that has let
-- the request through is left half-open, and neither a success nor a failure is recorded.
pub probe_lost :
    (env : Env) (c : Config) (id : ℕ) (msg : Message) (n : Notification) (w : World)
    → w.breaker.state ≡ opened
    → (CircuitBreaker.allow w.now w.breaker).1 ≡ true
    → (wait env c.rate (record w { breaker = (CircuitBreaker.allow w.now w.breaker).0 })).0 ≢ passed
    → ((dispatch env c id msg n w).1.breaker ≡ (CircuitBreaker.allow w.now w.breaker).0)
      × ((dispatch env c id msg n w).1.breaker.state ≡ half_open)
unfolding dispatch
probe_lost env c id msg n w o allowed lost =
    let probing = record w { breaker = (CircuitBreaker.allow w.now w.breaker).0 } in
    let (r, w') = wait env c.rate probing in
    let kept =
      ap (λ (v : World). v.breaker) (after_wait_lost env c id msg n r w' lost)
      ∙ wait-keeps (λ v. v.breaker) (λ v now calls b. refl) env c.rate probing in
    rw (allowed, after_allow)
      (kept, ap (λ (b : CircuitBreaker). b.state) kept ∙ allow_probe w.now w.breaker o allowed)
