-- ===== src/Scheduler/Released.antt =====
-- The rounds of a poll's loop, when every call goes through.
use mathlib.Core.Option
use mathlib.Core.List.{append_assoc, append-nil}
use notification_system.Base.{
  ℕ, List, [], ◌∷◌, ◌++◌, map, some, ◌==◌, ◌≡◌, refl, sym, ap, ◌∙◌, arith, find, filter, All,
  Bool-cases, inl, inr, length,
}
use notification_system.Domain.Notification.{Notification, status_queued}
use notification_system.World.{Env, World, answered, call}
use notification_system.Repository.Sql.{is_valid_status, touched, update}
use notification_system.Repository.Notifications.{has_id, update_status, set_status, some_row}
use notification_system.Repository.Tables.{IsTable}
use notification_system.Repository.Lifecycle.{apply, apply-IsTable, marks}
use notification_system.Repository.Cancelling.{changed, find-map_where, find-has_id}
use notification_system.Repository.Found.{breaks_of_legal, status-is_legal, update_answered}
use notification_system.Queue.Producer.{publish, publishing}
use notification_system.Scheduler.{release, release_all, marked}

-- The row of `n` is there.
unfoldable pub IsThere : World → Notification → Type 0
IsThere w n = (m : Notification) × (find (has_id n.id) w.rows ≡ some m)

-- The row of `n` has status queued.
unfoldable pub IsQueued : World → Notification → Type 0
IsQueued w n =
    (m : Notification) × (find (has_id n.id) w.rows ≡ some m) × (m.status ≡ status_queued)

module _ (env : Env) (healthy : (k : ℕ) → (env.answer k).verdict ≡ answered) where
  -- The world in which the status is set.
  abbrev pub published : Notification → World → World
  published n w = record ((call env w).1) { queue = w.queue ++ publishing env n ∷ [] }

  pub release-published :
      (n : Notification) (w : World)
      → release env n w ≡ (update_status env n.id status_queued (published n w)).1
  unfolding release marked publish call
  release-published n w = rw (healthy w.calls) refl

  marked-queue : (id : ℕ) (w : World) → (update_status env id status_queued w).1.queue ≡ w.queue
  unfolding update_status some_row update call
  marked-queue id w = ground arith

  marked-find :
      (id i : ℕ) (w : World)
      → IsTable w.rows
      → find (has_id i) (update_status env id status_queued w).1.rows
        ≡ Option.map
            (changed
              (has_id id)
              (touched (call env w).1.now (λ m. record m { status = status_queued })))
            (find (has_id i) w.rows)
  unfolding update_status some_row is_valid_status
  marked-find id i w t =
      let now = (call env w).1.now in
      let set : Notification → Notification = λ m. record m { status = status_queued } in
      rw
        (update_answered env healthy (set_status id status_queued) w (
          breaks_of_legal (has_id id) set w.rows (λ m l. status-is_legal status_queued m refl l) t))
        (elim (Bool-cases (length (filter (has_id id) w.rows) == 0)) [
          | inl e ↦ rw e (find-map_where (has_id id) (touched now set) i w.rows (λ m. refl))
          | inr e ↦ rw e (find-map_where (has_id id) (touched now set) i w.rows (λ m. refl))
        ])

  pub release-queue :
      (n : Notification) (w : World) → (release env n w).queue ≡ w.queue ++ publishing env n ∷ []
  unfolding call
  release-queue n w = rw (release-published n w) (marked-queue n.id (published n w))

  pub release-IsTable :
      (n : Notification) (w : World) → IsTable w.rows → IsTable (release env n w).rows
  unfolding apply call
  release-IsTable n w t =
      rw (release-published n w) (apply-IsTable env (marks n.id status_queued) (published n w) t)

  -- Every row after the round.
  pub release-find :
      (n : Notification) (i : ℕ) (w : World)
      → IsTable w.rows
      → find (has_id i) (release env n w).rows
        ≡ Option.map
            (changed
              (has_id n.id)
              (touched (call env (published n w)).1.now (λ m. record m { status = status_queued })))
            (find (has_id i) w.rows)
  unfolding call
  release-find n i w t = rw (release-published n w) (marked-find n.id i (published n w) t)

  release-IsThere :
      (n k : Notification) (w : World) → IsTable w.rows → IsThere w k → IsThere (release env n w) k
  unfolding IsThere
  release-IsThere n k w t (m, e) =
      let set =
        touched (call env (published n w)).1.now (λ r. record r { status = status_queued }) in
      (
        changed (has_id n.id) set m,
        release-find n k.id w t ∙ ap (Option.map (changed (has_id n.id) set)) e,
      )

  release-IsQueued :
      (n k : Notification) (w : World)
      → IsTable w.rows
      → IsQueued w k
      → IsQueued (release env n w) k
  unfolding IsQueued
  release-IsQueued n k w t (m, e, q) =
      let set =
        touched (call env (published n w)).1.now (λ r. record r { status = status_queued }) in
      (
        changed (has_id n.id) set m,
        release-find n k.id w t ∙ ap (Option.map (changed (has_id n.id) set)) e,
        (elim (Bool-cases (has_id n.id m)) [ inl h ↦ rw h refl | inr h ↦ rw h q ]),
      )

  released-IsQueued :
      (n : Notification) (w : World) → IsTable w.rows → IsThere w n → IsQueued (release env n w) n
  unfolding IsThere IsQueued
  released-IsQueued n w t (m, e) =
      let set =
        touched (call env (published n w)).1.now (λ r. record r { status = status_queued }) in
      (
        changed (has_id n.id) set m,
        release-find n n.id w t ∙ ap (Option.map (changed (has_id n.id) set)) e,
        rw (find-has_id n.id w.rows e) refl,
      )

  pub release_all-IsQueued :
      (ns : List Notification) (k : Notification) (w : World)
      → IsTable w.rows
      → IsQueued w k
      → IsQueued (release_all env ns w) k
  unfolding release_all
  release_all-IsQueued [] k w t q = q
  release_all-IsQueued (n ∷ ns) k w t q =
      release_all-IsQueued ns k (release env n w) (release-IsTable n w t)
        (release-IsQueued n k w t q)

  map-IsThere :
      (n : Notification) (ns : List Notification) (w : World)
      → IsTable w.rows
      → All (IsThere w) ns
      → All (IsThere (release env n w)) ns
  map-IsThere n [] w t a = tt
  map-IsThere n (k ∷ ns) w t (h, a) = (release-IsThere n k w t h, map-IsThere n ns w t a)

  pub released-All :
      (ns : List Notification) (w : World)
      → IsTable w.rows
      → All (IsThere w) ns
      → ((release_all env ns w).queue ≡ w.queue ++ map (publishing env) ns)
        × All (IsQueued (release_all env ns w)) ns
        × IsTable (release_all env ns w).rows
  unfolding release_all
  released-All [] w t a = (sym (append-nil w.queue), tt, t)
  released-All (n ∷ ns) w t (h, a) =
      let t' = release-IsTable n w t in
      let (queue, queued, table) = released-All ns (release env n w) t' (map-IsThere n ns w t a) in
      (
        queue
            ∙ (ap (λ q. q ++ map (publishing env) ns) (release-queue n w)
                ∙ append_assoc w.queue (publishing env n ∷ []) (map (publishing env) ns)),
        (release_all-IsQueued ns n (release env n w) t' (released-IsQueued n w t h), queued),
        table,
      )
