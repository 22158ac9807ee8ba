-- ===== src/Worker/Processor/Retries.antt =====
-- A message that is delivered again and again: how many requests leave for it.
use notification_system.Base.{
  ℕ, zero, suc, ◌+◌, ◌-◌, ◌≤◌, String, List, Option, some, Bool, true, false, ◌≡◌, refl, ap, ◌∙◌,
  arith, length, subst,
}
use notification_system.Domain.Notification.{Notification, status_processing}
use notification_system.World.{
  Env, World, answered, sleep_until, Message, Reply, unbuilt, no_reply, replied, call,
}
use notification_system.CircuitBreaker
use notification_system.RateLimiter.Wait.{Waited, passed, timed_out, cancelled, exhausted, wait}
use notification_system.RateLimiter.Wait.Keeps.{wait-keeps}
use notification_system.Provider.{unexpected, classify, send, requested}
use notification_system.Repository.Sql.{is_valid_status}
use notification_system.Repository.Notifications.{update_status}
use notification_system.Worker.Processor.{
  Config, Settlement, acked, requeued, dead_lettered, unsettled, notify, conclude, after_wait,
  after_allow, dispatch, after_mark, mark, backoff_wait, after_backoff, after_get, with_id, process,
}
use notification_system.Worker.Processor.Frames.{
  notify-Quiet, update_status-Quiet, backoff_wait-Quiet,
}
use notification_system.Repository.Found.{HasRow, HasRow-same, get_by_id_found, update_status_row}
use notification_system.Worker.Processor.Updates.{notify-rows}
use notification_system.Worker.Processor.Attempts.{
  Attempt, ended, put_back, counted, length-requested, conclude-Attempt,
}

requested_unexpected :
    (env : Env) (n : Notification) (reply : Reply) (sent : List _) (text : String)
    → classify env reply ≡ unexpected text
    → requested n reply sent ≡ sent
unfolding requested classify
requested_unexpected env n (unbuilt m) sent text e = refl
requested_unexpected env n (no_reply m) sent text e = cc
requested_unexpected env n (replied code body) sent text e = ground arith

backoff_wait-rows : (env : Env) (t : Option ℕ) (w : World) → (backoff_wait env t w).1.rows ≡ w.rows
unfolding backoff_wait sleep_until
backoff_wait-rows env t w = ground arith

call-requests : (env : Env) (w : World) → (call env w).1.requests ≡ w.requests
unfolding call
call-requests env w = refl

call-HasRow :
    (env : Env) {id : ℕ} {n : Notification} {w : World} → HasRow id n w → HasRow id n (call env w).1
unfolding call
call-HasRow env h = HasRow-same refl h

module _ (env : Env) (healthy : (k : ℕ) → (env.answer k).verdict ≡ answered) (c : Config) (id : ℕ)
    (msg : Message) (n : Notification) where
  send-Attempt :
      (m : Notification) (w : World)
      → HasRow id m w
      → m.retry_count ≡ n.retry_count
      → Attempt c id n.retry_count (length w.requests) (conclude env c id msg n (send env n w))
  unfolding send call
  send-Attempt m w h same =
      conclude-Attempt env healthy c id msg n (send env n w).0 m (send env n w).1
        (HasRow-same refl h) same (length-requested n (env.reply w.calls) w.requests)
        (λ text e.
          omega
            (arith, ap length (requested_unexpected env n (env.reply w.calls) w.requests text e)))

  after_wait-Attempt :
      (r : Waited) (m : Notification) (w : World)
      → HasRow id m w
      → m.retry_count ≡ n.retry_count
      → Attempt c id n.retry_count (length w.requests) (after_wait env c id msg n (r, w))
  unfolding after_wait
  after_wait-Attempt passed m w h same = send-Attempt m w h same
  after_wait-Attempt timed_out m w h same = put_back m w h same (omega arith)
  after_wait-Attempt cancelled m w h same = put_back m w h same (omega arith)
  after_wait-Attempt exhausted m w h same = ended unsettled w (λ e. cc) (omega arith)

  after_allow-Attempt :
      (b : Bool) (m : Notification) (w : World)
      → HasRow id m w
      → m.retry_count ≡ n.retry_count
      → Attempt c id n.retry_count (length w.requests) (after_allow env c id msg n b w)
  unfolding after_allow
  after_allow-Attempt false m w h same = put_back m _ (HasRow-same refl h) same (omega arith)
  after_allow-Attempt true m w h same =
      subst
        (λ sent.
          Attempt c id n.retry_count (length sent) (after_wait env c id msg n (wait env c.rate w)))
        (wait-keeps (λ v. v.requests) (λ v now calls b. refl) env c.rate w)
        (after_wait-Attempt (wait env c.rate w).0 m (wait env c.rate w).1
          (HasRow-same (wait-keeps (λ v. v.rows) (λ v now calls b. refl) env c.rate w) h) same)

  dispatch-Attempt :
      (m : Notification) (w : World)
      → HasRow id m w
      → m.retry_count ≡ n.retry_count
      → Attempt c id n.retry_count (length w.requests) (dispatch env c id msg n w)
  unfolding dispatch
  dispatch-Attempt m w h same =
      let (breaker, allowed) = CircuitBreaker.allow w.now w.breaker in
      after_allow-Attempt allowed m (record w { breaker = breaker }) (HasRow-same refl h) same

  mark-Attempt :
      (w : World)
      → HasRow id n w
      → Attempt c id n.retry_count (length w.requests) (mark env c id msg n w)
  unfolding mark after_mark
  mark-Attempt w h =
      let (fine, h') =
        update_status_row env healthy id status_processing n w (unfold is_valid_status in refl) h in
      let w' = (update_status env id status_processing w).1 in
      let w'' = notify env id status_processing msg.channel w' in
      rw (fine, after_mark)
        (subst (λ sent. Attempt c id n.retry_count (length sent) (dispatch env c id msg n w''))
          ((notify-Quiet env id status_processing msg.channel w').requests
            ∙ (update_status-Quiet env id status_processing w).requests)
          (dispatch-Attempt
            (record n { status = status_processing; updated_at = (call env w).1.now }) w''
            (HasRow-same (notify-rows env healthy id status_processing msg.channel w') h') refl))

  after_backoff-Attempt :
      (b : Bool) (w : World)
      → HasRow id n w
      → Attempt c id n.retry_count (length w.requests) (after_backoff env c id msg n (b, w))
  unfolding after_backoff
  after_backoff-Attempt true w h = mark-Attempt w h
  after_backoff-Attempt false w h = put_back n w h refl (omega arith)

-- One delivery of a message, when the calls of the database go through, ends in one of the three
-- ways of `Attempt`.
process-Attempt :
    (env : Env) (c : Config) (msg : Message) (id : ℕ) (n : Notification) (w : World)
    → ((k : ℕ) → (env.answer k).verdict ≡ answered)
    → env.uuid_parse msg.id ≡ some id
    → HasRow id n w
    → Attempt c id n.retry_count (length w.requests) (process env c (some msg) w)
unfolding process with_id after_get
process-Attempt env c msg id n w healthy parsed h =
    let w' = (call env w).1 in
    let w'' = (backoff_wait env n.next_retry_at w').1 in
    let rest =
      after_backoff-Attempt env healthy c id msg n (backoff_wait env n.next_retry_at w').0 w''
        (HasRow-same (backoff_wait-rows env n.next_retry_at w') (call-HasRow env h)) in
    rw (parsed, with_id, get_by_id_found env healthy id w n h.row, after_get)
      (subst
        (λ sent.
          Attempt c id n.retry_count (length sent)
            (after_backoff env c id msg n (backoff_wait env n.next_retry_at w')))
        ((backoff_wait-Quiet env n.next_retry_at w').requests ∙ call-requests env w) rest)

-- The broker delivers a message that was put back again, at most `fuel` times.
abbrev again : (World → Settlement × World) → Settlement × World → Settlement × World
again next (requeued, w) = next w
again next (acked, w) = (acked, w)
again next (dead_lettered, w) = (dead_lettered, w)
again next (unsettled, w) = (unsettled, w)

pub redeliver : ℕ → Env → Config → Message → World → Settlement × World
redeliver zero env c msg w = (requeued, w)
redeliver (suc fuel) env c msg w = again (redeliver fuel env c msg) (process env c (some msg) w)

again-bounded :
    (c : Config) (id retry_count sent : ℕ) (next : World → Settlement × World)
    {s : Settlement × World}
    → Attempt c id retry_count sent s
    → ((n : Notification) (w : World)
        → HasRow id n w
        → length (next w).1.requests ≤ length w.requests + suc (c.max_retries - n.retry_count))
    → length (again next s).1.requests ≤ sent + suc (c.max_retries - retry_count)
again-bounded c id retry_count sent next (ended requeued w final few) later = absurd (final refl)
again-bounded c id retry_count sent next (ended acked w final few) later = omega arith
again-bounded c id retry_count sent next (ended dead_lettered w final few) later = omega arith
again-bounded c id retry_count sent next (ended unsettled w final few) later = omega arith
again-bounded c id retry_count sent next (put_back n w h same few) later =
    omega (arith, later n w h)
again-bounded c id retry_count sent next (counted n w h more below few) later =
    omega (arith, later n w h)

-- However often a message is delivered again, the requests that leave for it are at most one more
-- than the retries that its notification has left, provided that every call goes through, the
-- message's id is parsed as the notification's, and the notification is stored in a table whose rows
-- are legal and distinct. The provider, the breaker and the rate limiter may answer as they like.
pub redeliver-requests_bounded :
    (env : Env) (c : Config) (msg : Message) (id fuel : ℕ) (n : Notification) (w : World)
    → ((k : ℕ) → (env.answer k).verdict ≡ answered)
    → env.uuid_parse msg.id ≡ some id
    → HasRow id n w
    → length (redeliver fuel env c msg w).1.requests
      ≤ length w.requests + suc (c.max_retries - n.retry_count)
unfolding redeliver
redeliver-requests_bounded env c msg id zero n w healthy parsed h = omega arith
redeliver-requests_bounded env c msg id (suc fuel) n w healthy parsed h =
    again-bounded c id n.retry_count (length w.requests) (redeliver fuel env c msg)
      (process-Attempt env c msg id n w healthy parsed h)
      (λ n' w' h'. redeliver-requests_bounded env c msg id fuel n' w' healthy parsed h')
