-- ===== src/Scheduler.antt =====
-- internal/scheduler/scheduler.go: one poll. The ticker's loop of `Start` calls it every interval.
pub mod Ready
pub mod Due
pub mod Released
pub mod Once
pub mod Life
use notification_system.Base.{ℕ, List, [], ◌∷◌, max}
use notification_system.Domain.Errors.{Result, ok, err}
use notification_system.Domain.Notification.{Notification, status_queued}
use notification_system.World.{Env, World}
use notification_system.Repository.Notifications.{get_scheduled_ready, update_status}
use notification_system.Queue.Producer.{publish}

-- The rest of the round after the attempt to publish; an error is logged, and the loop goes on.
unfoldable pub marked : Env → Notification → Result (Unit {0}) × World → World
marked env n (err e, w) = w
marked env n (ok _, w) = (update_status env n.id status_queued w).1

unfoldable pub release : Env → Notification → World → World
unfolding marked
release env n w = marked env n (publish env n w)

unfoldable pub release_all : Env → List Notification → World → World
release_all env [] w = w
release_all env (n ∷ ns) w = release_all env ns (release env n w)

unfoldable pub polled : Env → Result (List Notification) × World → World
polled env (err e, w) = w
polled env (ok ns, w) = release_all env ns w

unfoldable pub poll : Env → World → World
unfolding polled
poll env w = polled env (get_scheduled_ready env 100 w)

-- What a round of `Start`'s loop finds: a tick of its interval, or the context done.
pub data Round : Type 0 where
  tick : ℕ → Round
  done : Round

unfoldable pub start : Env → List Round → World → World
start env [] w = w
start env (tick t ∷ rounds) w = start env rounds (poll env (record w { now = max w.now t }))
start env (done ∷ rounds) w = w
