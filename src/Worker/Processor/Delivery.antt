-- ===== src/Worker/Processor/Delivery.antt =====
-- A delivery under which every call goes through and the provider accepts.
use notification_system.Base.{
  ℕ, ◌≤◌, count, List, [], ◌∷◌, ◌++◌, none, some, Bool, true, ◌≡◌, refl, ap, ◌∙◌, arith, find,
  subst,
}
use notification_system.Domain.Errors.{ok}
use notification_system.Domain.Notification.{Notification, status_processing, status_sent}
use notification_system.World.{
  Env, World, answered, Message, WebhookRequest, Reply, unbuilt, no_reply, replied,
  ProviderResponse, call,
}
use notification_system.CircuitBreaker
use notification_system.CircuitBreaker.{CircuitBreaker, State, closed}
use notification_system.RateLimiter.Bucket.{run_script, available, refill}
use notification_system.Base.Int.{◌+ℤ◌}
use notification_system.RateLimiter.Wait.{passed, allow, wait-passed}
use notification_system.Provider.{accepted, classify, send, request_of, requested}
use notification_system.Repository.Sql.{touched}
use notification_system.Repository.Notifications.{has_id, update_status, update_sent, set_sent}
use notification_system.Repository.Tables.{IsTable}
use notification_system.Worker.Processor.{
  Config, Settlement, acked, notify, conclude, after_wait, after_allow, dispatch, after_mark, mark,
  backoff_wait, after_backoff, after_get, with_id, process,
}
use notification_system.Worker.Processor.Frames.{notify-Quiet}
use notification_system.Repository.Found.{get_by_id_found}
use notification_system.Worker.Processor.Updates.{
  Holds, notify-rows, notify-Holds, mark-Holds, sent_row, update_sent-requests,
}

run_script_passes : (rate now server : ℕ) → 1 ≤ rate → (run_script rate now server none).0 ≡ true
unfolding run_script available refill ◌+ℤ◌
run_script_passes rate now server h = ground arith

allow_closed :
    (now : ℕ) (cb : CircuitBreaker) → cb.state ≡ closed → (CircuitBreaker.allow now cb).1 ≡ true
unfolding CircuitBreaker.allow
allow_closed now cb h = ground arith

requested_accepted :
    (env : Env) (n : Notification) (reply : Reply) (sent : List WebhookRequest)
    {r : ProviderResponse}
    → classify env reply ≡ accepted r
    → requested n reply sent ≡ sent ++ request_of n ∷ []
unfolding requested classify
requested_accepted env n (unbuilt m) sent e = cc
requested_accepted env n (no_reply m) sent e = refl
requested_accepted env n (replied code body) sent e = refl

-- The delivery was acknowledged, `requests` are the requests that have left, and the row of `id`
-- is sent, with the provider's id of the message.
pub record IsDelivered (id : ℕ) (r : ProviderResponse) (sent : List WebhookRequest)
    (s : Settlement × World) : Type 0 where
  pub settled : s.0 ≡ acked
  pub requests : s.1.requests ≡ sent
  pub row : Notification
  pub found : find (has_id id) s.1.rows ≡ some row
  pub status : row.status ≡ status_sent
  pub receipt : row.provider_message_id ≡ some r.message_id

module _ (env : Env) (healthy : (k : ℕ) → (env.answer k).verdict ≡ answered) where
  allow_fresh :
      (rate : ℕ) (w : World)
      → 1 ≤ rate
      → w.bucket ≡ none
      → ((allow env rate w).0 ≡ ok true)
        × ((allow env rate w).1.rows ≡ w.rows)
        × ((allow env rate w).1.requests ≡ w.requests)
  unfolding allow call
  allow_fresh rate w h b =
      rw (healthy w.calls, b) (ap ok (run_script_passes rate _ _ h), refl, refl)

  module _ (c : Config) (id : ℕ) (msg : Message) (r : ProviderResponse) (n : Notification) where
    conclude_delivers :
        (m : Notification) (w : World)
        → count r.message_id ≤ 255
        → find (has_id id) w.rows ≡ some m
        → IsTable w.rows
        → IsDelivered id r w.requests (conclude env c id msg n (accepted r, w))
    unfolding conclude
    conclude_delivers m w short row table =
        let w' = record w { breaker = CircuitBreaker.record_success w.now w.breaker } in
        let q =
          notify-Quiet env id status_sent msg.channel (update_sent env id r.message_id w').1 in
        record {
          settled = refl;
          requests = q.requests ∙ update_sent-requests env healthy id r.message_id w';
          row = touched (call env w').1.now ((set_sent id r.message_id).set (call env w').1.now) m;
          found =
              rw
                (notify-rows env healthy id status_sent msg.channel
                  (update_sent env id r.message_id w').1)
                (sent_row env healthy id r.message_id m w' short row table);
          status = refl;
          receipt = refl;
        }

    send_accepted :
        (w : World)
        → ((k : ℕ) → classify env (env.reply k) ≡ accepted r)
        → send env n w
          ≡ (accepted r, record ((call env w).1) { requests = w.requests ++ request_of n ∷ [] })
    unfolding send call
    send_accepted w accepts =
        rw
          (
            accepts w.calls,
            requested_accepted env n (env.reply w.calls) w.requests (accepts w.calls),
          )
          refl

    after_wait_delivers :
        (m : Notification) (w : World)
        → ((k : ℕ) → classify env (env.reply k) ≡ accepted r)
        → count r.message_id ≤ 255
        → find (has_id id) w.rows ≡ some m
        → IsTable w.rows
        → IsDelivered id r (w.requests ++ request_of n ∷ []) (after_wait env c id msg n (passed, w))
    unfolding after_wait
    after_wait_delivers m w accepts short row table = rw (send_accepted w accepts) (
        conclude_delivers m (record ((call env w).1) { requests = w.requests ++ request_of n ∷ [] })
          short (unfold call in row) (unfold call in table))

    after_allow_delivers :
        (m : Notification) (w : World) {b : Bool}
        → ((k : ℕ) → classify env (env.reply k) ≡ accepted r)
        → count r.message_id ≤ 255
        → 1 ≤ c.rate
        → b ≡ true
        → w.bucket ≡ none
        → find (has_id id) w.rows ≡ some m
        → IsTable w.rows
        → IsDelivered id r (w.requests ++ request_of n ∷ []) (after_allow env c id msg n b w)
    unfolding after_allow
    after_allow_delivers m w accepts short some_rate yes' fresh row table =
        let (fine, rows, requests) = allow_fresh c.rate w some_rate fresh in
        rw (yes', wait-passed env c.rate w fine)
          (subst
            (λ l.
              IsDelivered id r (l ++ request_of n ∷ [])
                (after_wait env c id msg n (passed, (allow env c.rate w).1)))
            requests
            (after_wait_delivers m (allow env c.rate w).1 accepts short (rw rows row)
              (rw rows table)))

    dispatch_delivers :
        (m : Notification) (sent : List WebhookRequest) (w : World)
        → ((k : ℕ) → classify env (env.reply k) ≡ accepted r)
        → count r.message_id ≤ 255
        → 1 ≤ c.rate
        → Holds env healthy sent id m w
        → IsDelivered id r (sent ++ request_of n ∷ []) (dispatch env c id msg n w)
    unfolding dispatch
    dispatch_delivers m sent w accepts short some_rate h =
        subst (λ l. IsDelivered id r (l ++ request_of n ∷ []) (dispatch env c id msg n w))
          h.requests
          (after_allow_delivers m (record w { breaker = (CircuitBreaker.allow w.now w.breaker).0 })
            accepts short some_rate (allow_closed w.now w.breaker h.closed) h.fresh h.row h.table)

    mark_delivers :
        (sent : List WebhookRequest) (w : World)
        → ((k : ℕ) → classify env (env.reply k) ≡ accepted r)
        → count r.message_id ≤ 255
        → 1 ≤ c.rate
        → Holds env healthy sent id n w
        → IsDelivered id r (sent ++ request_of n ∷ []) (mark env c id msg n w)
    unfolding mark after_mark
    mark_delivers sent w accepts short some_rate h =
        let (fine, h') = mark-Holds env healthy id n w h in
        let w' = (update_status env id status_processing w).1 in
        rw (fine, after_mark)
          (dispatch_delivers _ sent (notify env id status_processing msg.channel w') accepts short
            some_rate (notify-Holds env healthy id status_processing msg.channel w' h'))

-- When every call goes through and the provider accepts, a delivery whose notification is stored is
-- sent, whatever the row's status is: it is acknowledged, exactly one request leaves, made of the
-- stored row, and afterwards the row has status sent and the provider's message id. The conditions:
-- no retry time is set, the table's rows are legal and distinct, the breaker is closed, the rate
-- limiter's bucket is new and its rate is not 0, and the message id fits its column.
pub process_delivers :
    (env : Env) (c : Config) (msg : Message) (id : ℕ) (n : Notification) (r : ProviderResponse)
    (w : World)
    → ((k : ℕ) → (env.answer k).verdict ≡ answered)
    → ((k : ℕ) → classify env (env.reply k) ≡ accepted r)
    → count r.message_id ≤ 255
    → 1 ≤ c.rate
    → env.uuid_parse msg.id ≡ some id
    → find (has_id id) w.rows ≡ some n
    → n.next_retry_at ≡ none
    → IsTable w.rows
    → w.breaker.state ≡ closed
    → w.bucket ≡ none
    → IsDelivered id r (w.requests ++ request_of n ∷ []) (process env c (some msg) w)
unfolding process with_id after_get after_backoff backoff_wait request_of
process_delivers env c msg id n r w healthy accepts short some_rate parsed row at_once table shut
      fresh =
    rw
      (
        parsed,
        with_id,
        get_by_id_found env healthy id w n row,
        after_get,
        at_once,
        backoff_wait,
        after_backoff,
      )
      (mark_delivers env healthy c id msg r n w.requests (call env w).1 accepts short some_rate (
        unfold call in
        record { requests = refl; row = row; table = table; closed = shut; fresh = fresh }))
