-- ===== src/Service/Enqueued.antt =====
-- The loop that puts the notifications of a batch in the queue, when every call goes through.
use mathlib.Core.Option
use mathlib.Core.List.{append-nil, append_assoc}
use notification_system.Base.{
  ℕ, List, [], ◌∷◌, ◌++◌, map, some, Bool, true, false, ◌≡◌, ◌≢◌, ◌⊎◌, inl, inr, refl, sym, ap, ◌∙◌,
  arith, find, filter, str_eq, All, Each, Bool-cases, subst,
}
use notification_system.Domain.Errors.{Result, ok, err}
use notification_system.Domain.Notification.{Notification, status_queued, status_pending}
use notification_system.World.{Env, World, answered, call}
use notification_system.Repository.Sql.{is_valid_status}
use notification_system.Repository.Notifications.{has_id, update_status}
use notification_system.Repository.Tables.{IsTable}
use notification_system.Repository.Distinct.{Apart, Distinct}
use notification_system.Repository.Cancelling.{call-rows, changed}
use notification_system.Repository.Found.{HasRow, HasRow-same, update_status_row}
use notification_system.Queue.Producer.{publishing}
use notification_system.Scheduler.{release}
use notification_system.Scheduler.Released.{
  release-queue, release-IsTable, release-find, release-published, published,
}
use notification_system.Service.{is_future, published_after, queued_after, enqueue, enqueue_all}
use notification_system.Service.Creation.{publish_answered, enqueue_row}

abbrev pub is_queued : Notification → Bool
is_queued n = str_eq n.status status_queued

-- What becomes of a notification: it is queued, or left as it was because it is for later.
pub data IsEnqueued (n m : Notification) : Type 0 where
  queued : m ≡ record n { status = status_queued } → IsEnqueued n m
  for_later : (t : ℕ) → is_future t n.scheduled_at ≡ true → m ≡ n → IsEnqueued n m

-- The row is as the notification, but for the time of its update.
abbrev pub IsStored : World → Notification → Type 0
IsStored w n = (t : ℕ) × (find (has_id n.id) w.rows ≡ some (record n { updated_at = t }))

abbrev pub IsFound : World → Notification → Type 0
IsFound w n = find (has_id n.id) w.rows ≡ some n

-- What the loop leaves behind.
pub record AllEnqueued (env : Env) (w : World) (ns : List Notification)
    (s : List Notification × World) : Type 0 where
  pub queue : s.1.queue ≡ w.queue ++ map (publishing env) (filter is_queued s.0)
  pub stored : All (IsStored s.1) s.0
  pub table : IsTable s.1.rows
  pub each : Each IsEnqueued ns s.0

module _ (env : Env) (healthy : (k : ℕ) → (env.answer k).verdict ≡ answered) where
  enqueue_soon :
      (n : Notification) (w : World)
      → is_future w.now n.scheduled_at ≡ false
      → HasRow n.id n w
      → enqueue env n w ≡ (record n { status = status_queued }, release env n w)
  unfolding enqueue call
  enqueue_soon n w soon h =
      let (fine, row) =
        update_status_row env healthy n.id status_queued n (published env healthy n w)
          (unfold is_valid_status in refl) (HasRow-same (call-rows env w) h) in
      rw
        (soon, publish_answered env healthy n w, published_after, release-published env healthy n w)
        (rw (fine, queued_after) refl)

  -- Whatever becomes of it, the world is as before or as after a round of the scheduler.
  enqueue-world :
      (n : Notification) (w : World)
      → ((enqueue env n w).1 ≡ w) ⊎ ((enqueue env n w).1 ≡ release env n w)
  unfolding enqueue queued_after
  enqueue-world n w = elim (Bool-cases (is_future w.now n.scheduled_at)) [
    | inl later ↦ rw later (inl refl)
    | inr soon ↦
        rw
          (
            soon,
            publish_answered env healthy n w,
            published_after,
            release-published env healthy n w,
          )
          (inr (
            queued_after-world n
              (update_status env n.id status_queued (published env healthy n w))))
  ]
    where
      queued_after-world :
          (m : Notification) (s : Result (Unit {0}) × World) → (queued_after m s).1 ≡ s.1
      queued_after-world m (ok _, v) = refl
      queued_after-world m (err e, v) = refl

  enqueue-IsTable :
      (n : Notification) (w : World) → IsTable w.rows → IsTable (enqueue env n w).1.rows
  enqueue-IsTable n w t = elim (enqueue-world n w) [
    | inl e ↦ rw e t
    | inr e ↦ rw e (release-IsTable env healthy n w t)
  ]

  -- The rows of the others stay.
  enqueue-find :
      (n : Notification) (i : ℕ) (w : World)
      → IsTable w.rows
      → n.id ≢ i
      → find (has_id i) (enqueue env n w).1.rows ≡ find (has_id i) w.rows
  enqueue-find n i w t apart = elim (enqueue-world n w) [
    | inl e ↦ rw e refl
    | inr e ↦ rw e (release-find env healthy n i w t ∙ unchanged n.id i _ w.rows apart)
  ]
    where
      unchanged :
          (id j : ℕ) (g : Notification → Notification) (rows : List Notification)
          → id ≢ j
          → Option.map (changed (has_id id) g) (find (has_id j) rows) ≡ find (has_id j) rows
      unchanged id j g [] d = refl
      unchanged id j g (m ∷ rows) d = ground (arith, unchanged id j g rows d)

  enqueue_all-find :
      (ns : List Notification) (i : ℕ) (w : World)
      → IsTable w.rows
      → All (λ n. n.id ≢ i) ns
      → find (has_id i) (enqueue_all env ns w).1.rows ≡ find (has_id i) w.rows
  unfolding enqueue_all
  enqueue_all-find [] i w t a = refl
  enqueue_all-find (n ∷ ns) i w t (d, a) =
      enqueue_all-find ns i (enqueue env n w).1 (enqueue-IsTable n w t) a ∙ enqueue-find n i w t d

  -- The others are still found as they were.
  still-IsFound :
      (n : Notification) (ns : List Notification) (w : World)
      → IsTable w.rows
      → Apart n ns
      → All (IsFound w) ns
      → All (IsFound (enqueue env n w).1) ns
  still-IsFound n [] w t a f = tt
  still-IsFound n (m ∷ ns) w t (d, a) (e, f) =
      (enqueue-find n m.id w t (λ s. d (sym s)) ∙ e, still-IsFound n ns w t a f)

  enqueue_later :
      (n : Notification) (w : World)
      → is_future w.now n.scheduled_at ≡ true
      → enqueue env n w ≡ (n, w)
  unfolding enqueue
  enqueue_later n w later = rw later refl

  -- The loop, from what becomes of its first notification on.
  later_first :
      (n : Notification) (ns : List Notification) (w : World)
      → is_future w.now n.scheduled_at ≡ true
      → n.status ≡ status_pending
      → IsFound w n
      → IsTable w.rows
      → Apart n ns
      → AllEnqueued env w ns (enqueue_all env ns w)
      → AllEnqueued env w (n ∷ ns) (enqueue_all env (n ∷ ns) w)
  unfolding enqueue_all
  later_first n ns w later pending found t a rest = rw (enqueue_later n w later) (record {
    queue = rw pending rest.queue;
    stored = ((n.updated_at, enqueue_all-find ns n.id w t a ∙ found), rest.stored);
    table = rest.table;
    each = (for_later w.now later refl, rest.each);
  })

  queued_first :
      (n : Notification) (ns : List Notification) (w : World)
      → is_future w.now n.scheduled_at ≡ false
      → HasRow n.id n w
      → Apart n ns
      → AllEnqueued env (release env n w) ns (enqueue_all env ns (release env n w))
      → AllEnqueued env w (n ∷ ns) (enqueue_all env (n ∷ ns) w)
  unfolding enqueue_all publishing
  queued_first n ns w soon h a rest =
      let (row, table) = enqueue_row env healthy n w h in
      let same = enqueue_soon n w soon h in
      let world : (enqueue env n w).1 ≡ release env n w = ap (λ s. s.1) same in
      let v = release env n w in
      rw same (record {
        queue =
            rest.queue
            ∙ (ap (λ q. q ++ map (publishing env) (filter is_queued (enqueue_all env ns v).0))
                  (release-queue env healthy n w)
                ∙ append_assoc w.queue (publishing env n ∷ [])
                    (map (publishing env) (filter is_queued (enqueue_all env ns v).0)));
        stored = (
          (
            row,
            enqueue_all-find ns n.id v (release-IsTable env healthy n w h.table) a
                ∙ subst
                    (λ s. find (has_id s.0.id) s.1.rows ≡ some (record (s.0) { updated_at = row }))
                    same table.row,
          ),
          rest.stored,
        );
        table = rest.table;
        each = (queued refl, rest.each);
      })

  pub enqueue_all-AllEnqueued :
      (ns : List Notification) (w : World)
      → IsTable w.rows
      → Distinct ns
      → All (IsFound w) ns
      → All (λ n. n.status ≡ status_pending) ns
      → AllEnqueued env w ns (enqueue_all env ns w)
  unfolding enqueue_all
  enqueue_all-AllEnqueued [] w t d f p = record {
    queue = sym (append-nil w.queue);
    stored = tt;
    table = t;
    each = tt;
  }
  enqueue_all-AllEnqueued (n ∷ ns) w t (a, d) (e, f) (pending, p) =
      elim (Bool-cases (is_future w.now n.scheduled_at)) [
        | inl later ↦ later_first n ns w later pending e t a (enqueue_all-AllEnqueued ns w t d f p)
        | inr soon ↦
            let h : HasRow n.id n w = record { row = e; table = t } in
            let world : (enqueue env n w).1 ≡ release env n w =
              ap (λ s. s.1) (enqueue_soon n w soon h) in
            queued_first n ns w soon h a (
              enqueue_all-AllEnqueued ns (release env n w) (release-IsTable env healthy n w t) d
                (subst (λ v. All (IsFound v) ns) world (still-IsFound n ns w t a f)) p)
      ]
