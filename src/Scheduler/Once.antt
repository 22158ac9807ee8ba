-- ===== src/Scheduler/Once.antt =====
-- What a poll publishes when every call goes through, and that a later poll does not publish it again.
use notification_system.Base.{ℕ, List, ◌++◌, map, some, ◌≡◌, ◌≢◌, refl, sym, subst, find, All}
use notification_system.Domain.Notification.{Notification, queued-ne-pending}
use notification_system.World.{Env, World, answered, call}
use notification_system.Repository.Sql.{query}
use notification_system.Repository.Notifications.{has_id, get_scheduled_ready}
use notification_system.Repository.Tables.{IsTable}
use notification_system.Queue.Producer.{publishing}
use notification_system.Scheduler.{release_all, poll, polled}
use notification_system.Scheduler.Due.{ready, IsFound, All-map, ready-IsFound}
use notification_system.Scheduler.Released.{IsThere, IsQueued, released-All}

module _ (env : Env) (healthy : (k : ℕ) → (env.answer k).verdict ≡ answered) where
  pub found-IsThere :
      (t : ℕ) (ns : List Notification) (w : World) → All (IsFound t w.rows) ns → All (IsThere w) ns
  unfolding IsFound IsThere
  found-IsThere t ns w a = All-map (IsFound t w.rows) (IsThere w) ns (λ n h. (n, h.0)) a

  pub poll-released :
      (w : World) → poll env w ≡ release_all env (ready (call env w).1.now w.rows) (call env w).1
  unfolding poll polled get_scheduled_ready query call
  poll-released w = rw (healthy w.calls) refl

  -- No notification that a poll has put in the queue is picked by a later one.
  pub queued_apart :
      (k : Notification) (t : ℕ) (w : World)
      → IsTable w.rows
      → IsQueued w k
      → All (λ m. m.id ≢ k.id) (ready t w.rows)
  unfolding IsQueued IsFound
  queued_apart k t w table (m', e, q) =
      All-map (IsFound t w.rows) (λ m. m.id ≢ k.id) (ready t w.rows)
        (λ m h same.
          let found : find (has_id m.id) w.rows ≡ some m = h.0 in
          let other : find (has_id m.id) w.rows ≡ some m' =
            subst (λ i. find (has_id i) w.rows ≡ some m') (sym same) e in
          let pending = (h.1).pending in queued-ne-pending cc)
        (ready-IsFound t w.rows table)

  -- What a poll leaves behind.
  pub released_poll :
      (w : World)
      → IsTable w.rows
      → let due = ready (call env w).1.now w.rows in
        ((poll env w).queue ≡ w.queue ++ map (publishing env) due)
        × All (IsQueued (poll env w)) due
        × IsTable (poll env w).rows
  unfolding call
  released_poll w table =
      let due = ready (call env w).1.now w.rows in
      rw (poll-released w) (
        released-All env healthy due (call env w).1 table (
          found-IsThere (call env w).1.now due (call env w).1
            (ready-IsFound (call env w).1.now w.rows table)))

  -- When every call goes through and the rows are legal and distinct, a poll puts exactly the
  -- notifications that are due in the queue, at most a hundred of them, each once and the earliest
  -- first; the row of each has status queued then, and no query of a later poll on these rows, at
  -- whatever time, picks one of them again.
  pub poll_publishes_once :
      (w : World)
      → IsTable w.rows
      → let due = ready (call env w).1.now w.rows in
        ((poll env w).queue ≡ w.queue ++ map (publishing env) due)
        × All (IsQueued (poll env w)) due
        × All (λ k. (t : ℕ) → All (λ m. m.id ≢ k.id) (ready t (poll env w).rows)) due
  poll_publishes_once w table =
      let due = ready (call env w).1.now w.rows in
      let (queue, queued, table') = released_poll w table in
      (
        queue,
        queued,
        All-map (IsQueued (poll env w)) _ due (λ k q t. queued_apart k t (poll env w) table' q)
            queued,
      )
