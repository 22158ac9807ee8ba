-- ===== src/EndToEnd.antt =====
-- A notification from its request to its delivery: internal/service creates it and publishes its
-- message, and internal/worker processes that message.
use notification_system.Base.{
  ℕ, ◌≤◌, count, [], ◌∷◌, ◌++◌, Option, none, some, ◌≡◌, refl, sym, ap, ◌∙◌, arith, subst,
}
use notification_system.Domain.Errors.{Result, ok, err, Error}
use notification_system.Domain.Notification.{
  Notification, CreateNotificationRequest, status_queued, status_pending, queued-ne-pending,
}
use notification_system.Domain.Validate.{validate}
use notification_system.World.{
  Env, World, Action, answered, ProviderResponse, bind, call, draw_uuid,
}
use notification_system.CircuitBreaker.{closed}
use notification_system.Repository.Sql.{query, update}
use notification_system.Repository.Notifications
use notification_system.Repository.Notifications.{update_status}
use notification_system.Repository.Tables.{IsTable}
use notification_system.Repository.Templates
use notification_system.Queue.Producer.{publish, publishing}
use notification_system.Provider.{accepted, classify, request_of}
use notification_system.Service.{
  notification_of, resolve_template, enqueue, enqueued, create_valid, create,
}
use notification_system.Service.Failures.{resolve_template-queue, create-queue}
use notification_system.Repository.Batches.Frames.{bind-queue, bind-eq-ok}
use notification_system.Service.Creation.{create_valid_row}
use notification_system.Worker.Processor.{Config, process}
use notification_system.Worker.Processor.Frames.{Quiet}
use notification_system.Worker.Processor.Delivery.{IsDelivered, process_delivers}

resolve_template-Quiet :
    (env : Env) (r : CreateNotificationRequest) (w : World) → Quiet w (resolve_template env r w).1
unfolding resolve_template Templates.get_by_id query call
resolve_template-Quiet env r w = ground arith

create-Quiet : (env : Env) (n : Notification) (w : World) → Quiet w (Notifications.create env n w).1
unfolding Notifications.create call draw_uuid
create-Quiet env n w = ground arith

enqueue-Quiet : (env : Env) (n : Notification) (w : World) → Quiet w (enqueue env n w).1
unfolding enqueue publish update_status update call
enqueue-Quiet env n w = ground arith

Quiet-trans : {u v w : World} → Quiet u v → Quiet v w → Quiet u w
Quiet-trans p q = record {
  requests = q.requests ∙ p.requests;
  breaker = q.breaker ∙ p.breaker;
  bucket = q.bucket ∙ p.bucket;
  now = omega (arith, p.now, q.now);
}

bind-Quiet {ℓ κ} :
    {A : Type ℓ} {B : Type κ} {w : World} (s : Result A × World) (k : A → World → Result B × World)
    → Quiet w s.1
    → ((a : A) (v : World) → Quiet v (k a v).1)
    → Quiet w (bind s k).1
bind-Quiet (ok a, v) k q h = Quiet-trans q (h a v)
bind-Quiet (err e, v) k q h = q

-- The fields of a notification that `Create` has just stored.
create_fresh :
    (env : Env) (r : CreateNotificationRequest) (w : World) {n : Notification}
    → (Notifications.create env (notification_of none r) w).0 ≡ ok n
    → (n.status ≡ status_pending) × (n.next_retry_at ≡ none)
unfolding Notifications.create call draw_uuid notification_of
create_fresh env r w h = ground arith

-- A pending notification that ends as queued has been published.
enqueue_published :
    (env : Env) (n : Notification) (w : World)
    → ((k : ℕ) → (env.answer k).verdict ≡ answered)
    → n.status ≡ status_pending
    → (enqueue env n w).0.status ≡ status_queued
    → ((enqueue env n w).0 ≡ record n { status = status_queued })
      × ((enqueue env n w).1.queue ≡ w.queue ++ publishing env n ∷ [])
unfolding enqueue publish update_status update call
enqueue_published env n w healthy pending queued =
    ground (arith, healthy w.calls, queued-ne-pending)

-- `n` has been published since `w`, and nothing has been sent.
record IsPublished (env : Env) (n : Notification) (w w' : World) : Type 0 where
  queue : w'.queue ≡ w.queue ++ publishing env n ∷ []
  at_once : n.next_retry_at ≡ none
  quiet : Quiet w w'

publishing_queued :
    (env : Env) (n : Notification)
    → publishing env (record n { status = status_queued }) ≡ publishing env n
unfolding publishing
publishing_queued env n = refl

enqueued-IsPublished :
    (env : Env) (n : Notification) (w : World) {b : Notification}
    → ((k : ℕ) → (env.answer k).verdict ≡ answered)
    → n.status ≡ status_pending
    → n.next_retry_at ≡ none
    → (enqueued env n w).0 ≡ ok b
    → b.status ≡ status_queued
    → IsPublished env b w (enqueued env n w).1
unfolding enqueued
enqueued-IsPublished env n w {b} healthy pending at_once e queued =
    let returned : (enqueue env n w).0 ≡ b = ground arith in
    let (same, queue) =
      enqueue_published env n w healthy pending (ap (λ m. m.status) returned ∙ queued) in
    let is : record n { status = status_queued } ≡ b = sym same ∙ returned in
    record {
      queue =
          queue
          ∙ ap (λ p. w.queue ++ p ∷ []) (sym (publishing_queued env n) ∙ ap (publishing env) is);
      at_once = sym (ap (λ m. m.next_retry_at) is) ∙ at_once;
      quiet = enqueue-Quiet env n w;
    }

create_valid-IsPublished :
    (env : Env) (r : CreateNotificationRequest) (o : Option Error) (w : World) {b : Notification}
    → ((k : ℕ) → (env.answer k).verdict ≡ answered)
    → (create_valid env r o w).0 ≡ ok b
    → b.status ≡ status_queued
    → IsPublished env b w (create_valid env r o w).1
unfolding create_valid
create_valid-IsPublished env r (some e) w {b} healthy h queued = cc
create_valid-IsPublished env r none w {b} healthy h queued =
    let resolved = resolve_template env r w in
    let store : CreateNotificationRequest → Action Notification =
      λ r'. Notifications.create env (notification_of none r') in
    let (n, stored', on) = bind-eq-ok (bind resolved store) (enqueued env) h in
    let (r', got, on') = bind-eq-ok resolved store stored' in
    let (pending, at_once) = create_fresh env r' resolved.1 (ap (λ s. s.0) (sym on') ∙ stored') in
    let v = (bind resolved store).1 in
    let p =
      enqueued-IsPublished env n v healthy pending at_once (ap (λ s. s.0) (sym on) ∙ h) queued in
    let quiet =
      bind-Quiet resolved store (resolve_template-Quiet env r w)
        (λ a v'. create-Quiet env (notification_of none a) v') in
    let untouched : v.queue ≡ w.queue =
      bind-queue resolved store (λ a v'. create-queue env (notification_of none a) v')
      ∙ resolve_template-queue env r w in
    subst (λ s. IsPublished env b w s.1) (sym on)
      (record {
        queue = p.queue ∙ ap (λ q. q ++ publishing env b ∷ []) untouched;
        at_once = p.at_once;
        quiet = Quiet-trans quiet p.quiet;
      })

-- A request that `Create` accepts and puts in the queue is delivered: exactly one message has been
-- published, and when a worker processes that message, exactly one request leaves, made of the
-- notification that `Create` returned, the delivery is acknowledged, and the row of the notification
-- has status sent and the provider's message id. The conditions: every call goes through, the
-- provider accepts with a message id that fits its column, a printed UUID is parsed as it was, the
-- rows are legal and distinct, the breaker is closed, and the rate limiter's bucket is new and its
-- rate is not 0.
pub create-process_delivers :
    (env : Env) (c : Config) (req : CreateNotificationRequest) (n : Notification)
    (r : ProviderResponse) (w : World)
    → ((k : ℕ) → (env.answer k).verdict ≡ answered)
    → ((k : ℕ) → classify env (env.reply k) ≡ accepted r)
    → ((i : ℕ) → env.uuid_parse (env.uuid_string i) ≡ some i)
    → count r.message_id ≤ 255
    → 1 ≤ c.rate
    → IsTable w.rows
    → w.breaker.state ≡ closed
    → w.bucket ≡ none
    → (create env req w).0 ≡ ok n
    → n.status ≡ status_queued
    → ((create env req w).1.queue ≡ w.queue ++ publishing env n ∷ [])
      × IsDelivered n.id r
          (w.requests ++ request_of n ∷ [])
          (process env c (some (publishing env n).body) (create env req w).1)
unfolding create publishing request_of
create-process_delivers env c req n r w healthy accepts parsed short some_rate table shut fresh h
      queued =
    let p = create_valid-IsPublished env (validate req).0 (validate req).1 w healthy h queued in
    let (t, row) = create_valid_row env healthy (validate req).0 (validate req).1 w table h in
    let w' = (create_valid env (validate req).0 (validate req).1 w).1 in
    (
      p.queue,
      subst
          (λ l.
            IsDelivered n.id r (l ++ request_of n ∷ [])
              (process env c (some (publishing env n).body) w'))
          p.quiet.requests
          (process_delivers env c (publishing env n).body n.id (record n { updated_at = t }) r w'
            healthy accepts short some_rate (parsed n.id) row.row p.at_once row.table
            (rw (p.quiet.breaker) shut) (p.quiet.bucket ∙ fresh)),
    )
