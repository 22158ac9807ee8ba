-- ===== src/Scheduler/Life.antt =====
-- What the scheduler publishes over its life.
use mathlib.Core.List.{append_assoc, append-nil}
use notification_system.Base.{
  ℕ, List, [], ◌∷◌, ◌++◌, map, filter, max, ◌≡◌, ◌≢◌, refl, sym, ap, ◌∙◌, All-append,
}
use notification_system.Domain.Notification.{Notification}
use notification_system.World.{Env, World, answered, call}
use notification_system.Repository.Sql.Sorting.{sort}
use notification_system.Repository.Notifications.{is_ready, scheduled_before}
use notification_system.Repository.Tables.{IsTable}
use notification_system.Repository.Distinct.{
  Apart, Distinct, IsTable-Distinct, filter-Distinct, sort-Distinct, take-Distinct, append-Distinct,
}
use notification_system.Queue.Producer.{publishing}
use notification_system.Scheduler.{Round, tick, done, start, poll}
use notification_system.Scheduler.Due.{ready, All-map}
use notification_system.Scheduler.Released.{IsQueued, release_all-IsQueued}
use notification_system.Scheduler.Once.{poll-released, queued_apart, released_poll}

ready-Distinct : (t : ℕ) (rows : List Notification) → IsTable rows → Distinct (ready t rows)
ready-Distinct t rows table = take-Distinct 100 (sort scheduled_before (filter (is_ready t) rows)) (
    sort-Distinct scheduled_before (filter (is_ready t) rows)
      (filter-Distinct (is_ready t) rows (IsTable-Distinct rows table)))

module _ (env : Env) (healthy : (k : ℕ) → (env.answer k).verdict ≡ answered) where
  -- Between `w` and `w'`, `ns` have been put in the queue, none twice, and none that was queued.
  record IsLife (w w' : World) (ns : List Notification) : Type 0 where
    queue : w'.queue ≡ w.queue ++ map (publishing env) ns
    once : Distinct ns
    fresh : (k : Notification) → IsQueued w k → Apart k ns

  poll-IsQueued :
      (k : Notification) (w : World) → IsTable w.rows → IsQueued w k → IsQueued (poll env w) k
  unfolding call IsQueued
  poll-IsQueued k w table q =
      rw (poll-released env healthy w) (
        release_all-IsQueued env healthy (ready (call env w).1.now w.rows) k (call env w).1 table q)

  map-append :
      (ns ms : List Notification)
      → map (publishing env) (ns ++ ms) ≡ map (publishing env) ns ++ map (publishing env) ms
  map-append [] ms = refl
  map-append (n ∷ ns) ms = ap (λ ps. publishing env n ∷ ps) (map-append ns ms)

  start-IsLife :
      (rounds : List Round) (w : World)
      → IsTable w.rows
      → (ns : List Notification) × IsLife w (start env rounds w) ns
  unfolding start IsQueued
  start-IsLife [] w table =
      ([], record { queue = sym (append-nil w.queue); once = tt; fresh = λ k q. tt })
  start-IsLife (done ∷ rounds) w table =
      ([], record { queue = sym (append-nil w.queue); once = tt; fresh = λ k q. tt })
  start-IsLife (tick t ∷ rounds) w table =
      let v : World = record w { now = max w.now t } in
      let due = ready (call env v).1.now v.rows in
      let (queue, queued, table') = released_poll env healthy v table in
      let (ns, life) = start-IsLife rounds (poll env v) table' in
      (
        due ++ ns,
        record {
          queue =
              life.queue
              ∙ (ap (λ q. q ++ map (publishing env) ns) queue
                  ∙ (append_assoc w.queue (map (publishing env) due) (map (publishing env) ns)
                      ∙ ap (λ q. w.queue ++ q) (sym (map-append due ns))));
          once =
              append-Distinct due ns (ready-Distinct (call env v).1.now v.rows table) life.once
                (All-map (IsQueued (poll env v)) (λ k. Apart k ns) due life.fresh queued);
          fresh = λ k q.
              All-append (λ m. m.id ≢ k.id) due ns
                (queued_apart env healthy k (call env v).1.now v table q)
                (life.fresh k (poll-IsQueued k v table q));
        },
      )

  -- However often the scheduler's ticker fires before its context is done, what it has put in the
  -- queue by then are the messages of notifications of which no two have the same id, in the order of
  -- the polls: none is published twice. Every call goes through, the rows are legal and distinct, and
  -- nothing else writes them in between.
  pub start_publishes_once :
      (rounds : List Round) (w : World)
      → IsTable w.rows
      → (ns : List Notification) × ((start env rounds w).queue ≡ w.queue ++ map (publishing env) ns)
        × Distinct ns
  start_publishes_once rounds w table =
      let (ns, life) = start-IsLife rounds w table in (ns, life.queue, life.once)
