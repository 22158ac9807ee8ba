-- ===== src/Service/Creation.antt =====
-- What a creation that succeeds leaves behind, when every call goes through.
use notification_system.Base.{
  ℕ, Option, none, some, ◌≡◌, refl, sym, ap, ◌∙◌, arith, Bool-cases, inl, inr, subst, [], ◌∷◌, ◌++◌,
}
use notification_system.Domain.Errors.{ok, Error}
use notification_system.Domain.Notification.{Notification, CreateNotificationRequest, status_queued}
use notification_system.Domain.Validate.{validate}
use notification_system.World.{Env, World, Action, answered, bind, call}
use notification_system.Repository.Sql.{query, is_valid_status}
use notification_system.Repository.Notifications
use notification_system.Repository.Notifications.{has_id, update_status}
use notification_system.Repository.Tables.{IsTable}
use notification_system.Repository.Cancelling.{call-rows}
use notification_system.Repository.Found.{
  HasRow, HasRow-same, create_row, update_status_row, get_by_id_found,
}
use notification_system.Repository.Batches.Frames.{bind-eq-ok}
use notification_system.Repository.Templates
use notification_system.Queue.Producer.{publish, publishing}
use notification_system.Service.{
  notification_of, is_future, resolve_template, queued_after, published_after, enqueue, enqueued,
  create_valid, create,
}

pub resolve_template-rows :
    (env : Env) (r : CreateNotificationRequest) (w : World)
    → (resolve_template env r w).1.rows ≡ w.rows
unfolding resolve_template Templates.get_by_id query call
resolve_template-rows env r w = ground arith

module _ (env : Env) (healthy : (k : ℕ) → (env.answer k).verdict ≡ answered) where
  pub publish_answered :
      (n : Notification) (w : World)
      → publish env n w
        ≡ (ok tt, record ((call env w).1) { queue = w.queue ++ publishing env n ∷ [] })
  unfolding publish call
  publish_answered n w = rw (healthy w.calls) refl

  -- After it has been put in the queue, the row is as it is returned, but for the time of its update.
  pub enqueue_row :
      (n : Notification) (w : World)
      → HasRow n.id n w
      → (t : ℕ) × HasRow
          (enqueue env n w).0.id
          (record ((enqueue env n w).0) { updated_at = t })
          (enqueue env n w).1
  unfolding enqueue
  enqueue_row n w h = elim (Bool-cases (is_future w.now n.scheduled_at)) [
    | inl later ↦ rw later (n.updated_at, h)
    | inr soon ↦
        let w' : World = record ((call env w).1) { queue = w.queue ++ publishing env n ∷ [] } in
        let (fine, row) =
          update_status_row env healthy n.id status_queued n w' (unfold is_valid_status in refl)
            (HasRow-same (call-rows env w) h) in
        rw (soon, publish_answered n w, published_after, fine, queued_after)
          ((call env w').1.now, row)
  ]

  enqueued_row :
      (n : Notification) (w : World) {b : Notification}
      → HasRow n.id n w
      → (enqueued env n w).0 ≡ ok b
      → (t : ℕ) × HasRow b.id (record b { updated_at = t }) (enqueued env n w).1
  unfolding enqueued
  enqueued_row n w {b} h e =
      let (t, row) = enqueue_row n w h in
      let returned : (enqueue env n w).0 ≡ b = ground arith in
      subst (λ m. (u : ℕ) × HasRow m.id (record m { updated_at = u }) (enqueue env n w).1) returned
        (t, row)

  pub create_valid_row :
      (r : CreateNotificationRequest) (o : Option Error) (w : World) {b : Notification}
      → IsTable w.rows
      → (create_valid env r o w).0 ≡ ok b
      → (t : ℕ) × HasRow b.id (record b { updated_at = t }) (create_valid env r o w).1
  unfolding create_valid
  create_valid_row r (some e) w {b} table h = cc
  create_valid_row r none w {b} table h =
      let resolved = resolve_template env r w in
      let store : CreateNotificationRequest → Action Notification =
        λ r'. Notifications.create env (notification_of none r') in
      let (n, stored', on) = bind-eq-ok (bind resolved store) (enqueued env) h in
      let (r', got, on') = bind-eq-ok resolved store stored' in
      let fine : (Notifications.create env (notification_of none r') resolved.1).0 ≡ ok n =
        ap (λ s. s.0) (sym on') ∙ stored' in
      let row =
        create_row env (notification_of none r') resolved.1
          (rw (resolve_template-rows env r w) table) fine in
      subst (λ s. (t : ℕ) × HasRow b.id (record b { updated_at = t }) s.1) (sym on)
        (enqueued_row n (bind resolved store).1 (subst (λ s. HasRow n.id n s.1) (sym on') row)
          (ap (λ s. s.0) (sym on) ∙ h))

-- What `Create` returns is read back by `GetByID`, but for the time of the row's last update: the
-- row was touched again when it was marked as queued. The calls go through, and the rows of the
-- table are legal and distinct.
pub create-get_by_id :
    (env : Env) (r : CreateNotificationRequest) (w : World) (n : Notification)
    → ((k : ℕ) → (env.answer k).verdict ≡ answered)
    → IsTable w.rows
    → (create env r w).0 ≡ ok n
    → (t : ℕ) × ((Notifications.get_by_id env n.id (create env r w).1).0
        ≡ ok (record n { updated_at = t }))
unfolding create
create-get_by_id env r w n healthy table h =
    let (t, row) = create_valid_row env healthy (validate r).0 (validate r).1 w table h in
    (
      t,
      ap (λ s. s.0)
          (get_by_id_found env healthy n.id (create env r w).1 (record n { updated_at = t })
            row.row),
    )
