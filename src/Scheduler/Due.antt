-- ===== src/Scheduler/Due.antt =====
-- The rows that a poll picks.
use notification_system.Base.{
  ℕ, List, [], ◌∷◌, some, false, ◌≡◌, arith, find, filter, take, All, Bool-cases, inl, inr,
}
use notification_system.Domain.Notification.{Notification}
use notification_system.Repository.Sql.{clashes}
use notification_system.Repository.Sql.Sorting.{sort}
use notification_system.Repository.Notifications.{has_id, is_ready, scheduled_before}
use notification_system.Repository.Tables.{IsTable}
use notification_system.Scheduler.Ready.{IsDue, is_ready-IsDue, take-All, sort-All}

-- The rows that the query of a poll picks at a time.
abbrev pub ready : ℕ → List Notification → List Notification
ready t rows = take 100 (sort scheduled_before (filter (is_ready t) rows))

pub fresh_id :
    (n m : Notification) (i : ℕ) (rows : List Notification)
    → clashes n rows ≡ false
    → find (has_id i) rows ≡ some m
    → has_id i n ≡ false
unfolding clashes
fresh_id n m i [] c e = cc
fresh_id n m i (r ∷ rows) c e = ground (arith, fresh_id n m i rows)

-- `m` is what its id finds, and is due.
unfoldable pub IsFound : ℕ → List Notification → Notification → Type 0
IsFound t rows m = (find (has_id m.id) rows ≡ some m) × IsDue t m

later_row :
    (t : ℕ) (n m : Notification) (rows : List Notification)
    → clashes n rows ≡ false
    → IsFound t rows m
    → IsFound t (n ∷ rows) m
unfolding IsFound
later_row t n m rows c (e, d) = (rw (fresh_id n m m.id rows c e) e, d)

pub All-map :
    (P Q : Notification → Type 0) (ns : List Notification)
    → ((n : Notification) → P n → Q n)
    → All P ns
    → All Q ns
All-map P Q [] f a = tt
All-map P Q (n ∷ ns) f (p, a) = (f n p, All-map P Q ns f a)

filter-IsFound :
    (t : ℕ) (rows : List Notification)
    → IsTable rows
    → All (IsFound t rows) (filter (is_ready t) rows)
unfolding IsFound
filter-IsFound t [] table = tt
filter-IsFound t (n ∷ rows) (l, c, table) =
    let rest =
      All-map (IsFound t rows) (IsFound t (n ∷ rows)) (filter (is_ready t) rows)
        (λ m h. later_row t n m rows c h) (filter-IsFound t rows table) in
    elim (Bool-cases (is_ready t n)) [
      | inl e ↦ rw e ((ground arith, is_ready-IsDue t n e), rest)
      | inr e ↦ rw e rest
    ]

pub ready-IsFound :
    (t : ℕ) (rows : List Notification) → IsTable rows → All (IsFound t rows) (ready t rows)
ready-IsFound t rows table =
    take-All (IsFound t rows) 100 (sort scheduled_before (filter (is_ready t) rows))
      (sort-All (IsFound t rows) (filter (is_ready t) rows) (filter-IsFound t rows table))
