-- ===== src/Scheduler/Ready.antt =====
-- What the scheduler picks up.
use notification_system.Base.{
  ℕ, zero, suc, ◌≤◌, List, [], ◌∷◌, none, true, false, ◌≡◌, ◌≢◌, arith, filter, take, length,
  length-take-le, All, Bool-cases, inl, inr, eq_iff,
}
use notification_system.Domain.Errors.{ok}
use notification_system.Domain.Notification.{Notification, status_pending}
use notification_system.World.{Env, World, call}
use notification_system.Repository.Sql.{query}
use notification_system.Repository.Sql.Sorting.{sort, Sorted, sort-Sorted, All-place}
use notification_system.Repository.Notifications.{
  is_ready, get_scheduled_ready, scheduled_before, time_of,
}

-- Pending, scheduled, and due at `now`.
pub record IsDue (now : ℕ) (n : Notification) : Type 0 where
  pub pending : n.status ≡ status_pending
  pub scheduled : n.scheduled_at ≢ none
  pub due : time_of n.scheduled_at ≤ now

pub is_ready-IsDue : (now : ℕ) (n : Notification) → is_ready now n ≡ true → IsDue now n
unfolding is_ready
is_ready-IsDue now n h = ground (arith, eq_iff n.status status_pending)

pub filter-IsDue : (now : ℕ) (ns : List Notification) → All (IsDue now) (filter (is_ready now) ns)
filter-IsDue now [] = tt
filter-IsDue now (n ∷ ns) = elim (Bool-cases (is_ready now n)) [
  | inl e ↦ rw e (is_ready-IsDue now n e, filter-IsDue now ns)
  | inr e ↦ rw e (filter-IsDue now ns)
]

pub scheduled_total :
    (n m : Notification) → scheduled_before n m ≡ false → scheduled_before m n ≡ true
scheduled_total n m h = ground arith

pub scheduled_trans :
    (x y z : Notification)
    → scheduled_before x y ≡ true
    → scheduled_before y z ≡ true
    → scheduled_before x z ≡ true
scheduled_trans x y z h k = ground arith

pub sort-All :
    (P : Notification → Type 0) (ns : List Notification)
    → All P ns
    → All P (sort scheduled_before ns)
unfolding sort
sort-All P [] a = tt
sort-All P (n ∷ ns) (p, a) =
    All-place scheduled_before scheduled_total scheduled_trans P n (sort scheduled_before ns) p
      (sort-All P ns a)

pub take-All :
    (P : Notification → Type 0) (k : ℕ) (ns : List Notification) → All P ns → All P (take k ns)
take-All P zero ns a = tt
take-All P (suc k) [] a = tt
take-All P (suc k) (n ∷ ns) (p, a) = (p, take-All P k ns a)

take-Sorted :
    (k : ℕ) (ns : List Notification)
    → Sorted scheduled_before ns
    → Sorted scheduled_before (take k ns)
take-Sorted zero ns s = tt
take-Sorted (suc k) [] s = tt
take-Sorted (suc k) (n ∷ ns) (a, s) = (take-All _ k ns a, take-Sorted k ns s)

get_scheduled_ready-eq-ok :
    (env : Env) (limit : ℕ) (w : World) {ns : List Notification}
    → (get_scheduled_ready env limit w).0 ≡ ok ns
    → ns
      ≡ take limit
          (sort scheduled_before (filter (is_ready (call env w).1.now) (call env w).1.rows))
unfolding get_scheduled_ready query call
get_scheduled_ready-eq-ok env limit w h = ground arith

-- What `GetScheduledReady` returns is at most `limit` rows, each pending and scheduled for a time
-- that has come when the query runs, the earliest first. A notification without a scheduled time is
-- never among them.
pub get_scheduled_ready-IsDue :
    (env : Env) (limit : ℕ) (w : World) (ns : List Notification)
    → (get_scheduled_ready env limit w).0 ≡ ok ns
    → (length ns ≤ limit) × All (IsDue (call env w).1.now) ns × Sorted scheduled_before ns
get_scheduled_ready-IsDue env limit w ns h =
    let t = (call env w).1.now in
    let found = filter (is_ready t) (call env w).1.rows in
    rw (get_scheduled_ready-eq-ok env limit w h) (
      length-take-le limit (sort scheduled_before found),
      take-All (IsDue t) limit (sort scheduled_before found)
          (sort-All (IsDue t) found (filter-IsDue t (call env w).1.rows)),
      take-Sorted limit (sort scheduled_before found)
          (sort-Sorted scheduled_before scheduled_total scheduled_trans found),
    )
