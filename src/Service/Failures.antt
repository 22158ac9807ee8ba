-- ===== src/Service/Failures.antt =====
-- What a failed creation leaves behind.
use notification_system.Base.{ℕ, List, map, Option, none, some, ◌≡◌, refl, ap, ◌∙◌, arith}
use notification_system.Domain.Errors.{Result, ok, err, Error}
use notification_system.Domain.Notification.{
  Notification, CreateNotificationRequest, BatchCreateRequest,
}
use notification_system.Domain.Validate.{validate, validate_batch}
use notification_system.World.{Env, World, Action, bind, call, draw_uuid}
use notification_system.Repository.Sql.{query}
use notification_system.Repository.Notifications
use notification_system.Repository.Batches
use notification_system.Repository.Batches.Frames.{bind-queue, create_batch-queue}
use notification_system.Repository.Templates
use notification_system.Service.{
  notification_of, resolve_template, enqueue, enqueued, enqueue_all, enqueued_batch, create_valid,
  create, create_valid_batch, create_batch,
}

pub resolve_template-queue :
    (env : Env) (r : CreateNotificationRequest) (w : World)
    → (resolve_template env r w).1.queue ≡ w.queue
unfolding resolve_template Templates.get_by_id query call
resolve_template-queue env r w = ground arith

pub create-queue :
    (env : Env) (n : Notification) (w : World) → (Notifications.create env n w).1.queue ≡ w.queue
unfolding Notifications.create call draw_uuid
create-queue env n w = ground arith

-- An action that never fails, after one that may.
bind-err {ℓ κ} :
    {A : Type ℓ} {B : Type κ} (s : Result A × World) (k : A → World → Result B × World) {e : Error}
    → ((a : A) (w : World) → (b : B) × ((k a w).0 ≡ ok b))
    → (bind s k).0 ≡ err e
    → (bind s k).1 ≡ s.1
bind-err (ok a, w) k never h = let (b, fine) = never a w in cc
bind-err (err e', w) k never h = refl

enqueued-ok :
    (env : Env) (n : Notification) (w : World)
    → (n' : Notification) × ((enqueued env n w).0 ≡ ok n')
unfolding enqueued
enqueued-ok env n w = ((enqueue env n w).0, refl)

create_valid-queue :
    (env : Env) (r : CreateNotificationRequest) (o : Option Error) (w : World) {e : Error}
    → (create_valid env r o w).0 ≡ err e
    → (create_valid env r o w).1.queue ≡ w.queue
unfolding create_valid
create_valid-queue env r (some e') w h = refl
create_valid-queue env r none w h =
    let resolved = resolve_template env r w in
    let store : CreateNotificationRequest → Action Notification =
      λ r'. Notifications.create env (notification_of none r') in
    ap (λ w'. w'.queue) (bind-err (bind resolved store) (enqueued env) (enqueued-ok env) h)
    ∙ (bind-queue resolved store (λ r'. create-queue env (notification_of none r'))
        ∙ resolve_template-queue env r w)

-- When `Create` returns an error, nothing has been published.
pub create-err_unpublished :
    (env : Env) (r : CreateNotificationRequest) (w : World) (e : Error)
    → (create env r w).0 ≡ err e
    → (create env r w).1.queue ≡ w.queue
unfolding create
create-err_unpublished env r w e h = create_valid-queue env (validate r).0 (validate r).1 w h

enqueued_batch-ok :
    (env : Env) (batch : ℕ) (ns : List Notification) (w : World)
    → (b : ℕ × List Notification) × ((enqueued_batch env batch ns w).0 ≡ ok b)
unfolding enqueued_batch
enqueued_batch-ok env batch ns w = ((batch, (enqueue_all env ns w).0), refl)

create_valid_batch-queue :
    (env : Env) (b : BatchCreateRequest) (o : Option Error) (w : World) {e : Error}
    → (create_valid_batch env b o w).0 ≡ err e
    → (create_valid_batch env b o w).1.queue ≡ w.queue
unfolding create_valid_batch draw_uuid
create_valid_batch-queue env b (some e') w h = refl
create_valid_batch-queue env b none w h =
    let (batch, w') = draw_uuid env w in
    let ns = map (notification_of (some batch)) b.notifications in
    ap (λ v. v.queue)
      (bind-err (Batches.create_batch env ns w') (enqueued_batch env batch)
        (enqueued_batch-ok env batch) h)
    ∙ create_batch-queue env ns w'

-- When `CreateBatch` returns an error, nothing has been published.
pub create_batch-err_unpublished :
    (env : Env) (b : BatchCreateRequest) (w : World) (e : Error)
    → (create_batch env b w).0 ≡ err e
    → (create_batch env b w).1.queue ≡ w.queue
unfolding create_batch
create_batch-err_unpublished env b w e h =
    create_valid_batch-queue env (validate_batch b).0 (validate_batch b).1 w h
