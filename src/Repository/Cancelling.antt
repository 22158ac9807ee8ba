-- ===== src/Repository/Cancelling.antt =====
-- `Cancel`: which row it changes, and when it says that it did.
use mathlib.Core.Option
use notification_system.Base.{
  ℕ, ◌<◌, List, [], ◌∷◌, some, Bool, true, ◌&&◌, ◌==◌, ◌≡◌, refl, ap, ◌∙◌, ◌⊎◌, inl, inr, arith,
  find, filter, length, Bool-cases, ==_iff, if◌then◌else◌, eq_iff,
}
use notification_system.Domain.Errors.{Result, ok, err}
use notification_system.Domain.Notification.{
  Notification, status_pending, status_queued, status_cancelled,
}
use notification_system.World.{Env, World, call, bind}
use notification_system.Repository.Sql.{map_where, touched, update, query}
use notification_system.Repository.Notifications.{
  has_id, cancel, cancelled_rows, set_cancelled, is_cancellable,
}
use notification_system.Repository.Tables.{IsTable, update_rows}
use notification_system.Repository.Lifecycle.{cancelled_rows-rows}
use notification_system.Repository.Distinct.{Apart, Distinct, IsTable-Distinct}

-- What an UPDATE makes of one row.
abbrev pub changed :
    (Notification → Bool) → (Notification → Notification) → Notification → Notification
changed hit g n = if hit n then g n else n

pub find-map_where :
    (hit : Notification → Bool) (g : Notification → Notification) (i : ℕ) (rows : List Notification)
    → ((n : Notification) → (g n).id ≡ n.id)
    → find (has_id i) (map_where hit g rows) ≡ Option.map (changed hit g) (find (has_id i) rows)
unfolding map_where
find-map_where hit g i [] k = refl
find-map_where hit g i (n ∷ rows) k = ground (arith, k n, find-map_where hit g i rows k)

-- An action that follows another and writes nothing.
bind-rows :
    {A B : Type 0} (s : Result A × World) (k : A → World → Result B × World)
    → ((a : A) (w : World) → (k a w).1.rows ≡ w.rows)
    → (bind s k).1.rows ≡ s.1.rows
bind-rows (ok a, w) k h = h a w
bind-rows (err e, w) k h = refl

is_cancellable_cases :
    (n : Notification)
    → is_cancellable n ≡ true
    → (n.status ≡ status_pending) ⊎ (n.status ≡ status_queued)
unfolding is_cancellable
is_cancellable_cases n h =
    ground (arith, eq_iff n.status status_pending, eq_iff n.status status_queued)

cancel_rows :
    (env : Env) (id : ℕ) (w : World)
    → (cancel env id w).1.rows ≡ (update env (set_cancelled id) w).1.rows
unfolding cancel
cancel_rows env id w =
    bind-rows (update env (set_cancelled id) w) (cancelled_rows env id) (cancelled_rows-rows env id)

-- The row of `i` after `Cancel` of `id`, whatever the environment answers: the same, or cancelled,
-- which only happens to the row of `id` itself while it is pending or queued.
pub cancel_changes :
    (env : Env) (id i : ℕ) (w : World) (n : Notification)
    → find (has_id i) w.rows ≡ some n
    → let t = (call env w).1.now in
      let after = find (has_id i) (cancel env id w).1.rows in
      (after ≡ some n)
      ⊎ ((n.id ≡ id)
          × ((n.status ≡ status_pending) ⊎ (n.status ≡ status_queued))
          × (after ≡ some (record n { status = status_cancelled; updated_at = t })))
cancel_changes env id i w n e =
    let s = set_cancelled id in
    let t = (call env w).1.now in
    rw (cancel_rows env id w) (elim (update_rows env (set_cancelled id) w) [
      | inl same ↦ rw same (inl e)
      | inr (fine, changes) ↦
          rw (changes, find-map_where s.hit (touched t (s.set t)) i w.rows (λ m. refl), e)
            (unfold is_cancellable in
              ground (arith, eq_iff n.status status_pending, eq_iff n.status status_queued))
    ])

cancel-eq-ok :
    (env : Env) (id : ℕ) (w : World)
    → (cancel env id w).0 ≡ ok tt
    → 0 < length (filter (set_cancelled id).hit (call env w).1.rows)
unfolding cancel update query call
cancel-eq-ok env id w h = ground arith

-- Among distinct rows, only the row of `id` can be counted.
count_none :
    (id : ℕ) (q : Notification → Bool) (n : Notification) (rows : List Notification)
    → Apart n rows
    → n.id ≡ id
    → length (filter (λ m. has_id id m && q m) rows) ≡ 0
count_none id q n [] a e = refl
count_none id q n (m ∷ rows) (k, a) e = ground (arith, count_none id q n rows a e)

find_counted :
    (id : ℕ) (q : Notification → Bool) (rows : List Notification)
    → Distinct rows
    → 0 < length (filter (λ m. has_id id m && q m) rows)
    → (n : Notification) × (find (has_id id) rows ≡ some n) × (q n ≡ true)
find_counted id q [] d h = absurd (omega arith)
find_counted id q (m ∷ rows) (a, d) h = elim (Bool-cases (m.id == id)) [
  | inr other ↦ rw other (find_counted id q rows d (ground arith))
  | inl same ↦ elim (Bool-cases (q m)) [
    | inl yes' ↦ (m, rw same, yes')
    | inr no' ↦ absurd (ground (arith, count_none id q m rows a ((==_iff m.id id).0 same)))
  ]
]

pub call-rows : (env : Env) (w : World) → (call env w).1.rows ≡ w.rows
unfolding call
call-rows env w = refl

cancel-ok_rows :
    (env : Env) (id : ℕ) (w : World)
    → (cancel env id w).0 ≡ ok tt
    → let t = (call env w).1.now in
      (cancel env id w).1.rows
      ≡ map_where (set_cancelled id).hit (touched t ((set_cancelled id).set t)) w.rows
unfolding cancel update query call
cancel-ok_rows env id w h = ground arith

pub find-has_id :
    (id : ℕ) (rows : List Notification) {n : Notification}
    → find (has_id id) rows ≡ some n
    → (n.id == id) ≡ true
find-has_id id [] e = cc
find-has_id id (m ∷ rows) {n} e = ground (arith, find-has_id id rows {n = n})

changed_cancelled :
    (id t : ℕ) (n : Notification)
    → (n.id == id) ≡ true
    → is_cancellable n ≡ true
    → changed (set_cancelled id).hit (touched t ((set_cancelled id).set t)) n
      ≡ record n { status = status_cancelled; updated_at = t }
changed_cancelled id t n e able = rw (e, able)

-- On a table whose rows are legal and distinct, `Cancel` returns nil only for a notification that
-- was pending or queued, and then its row is cancelled.
pub cancel_ok :
    (env : Env) (id : ℕ) (w : World)
    → IsTable w.rows
    → (cancel env id w).0 ≡ ok tt
    → (n : Notification) × (find (has_id id) w.rows ≡ some n)
      × ((n.status ≡ status_pending) ⊎ (n.status ≡ status_queued))
      × (find (has_id id) (cancel env id w).1.rows
          ≡ some (record n { status = status_cancelled; updated_at = (call env w).1.now }))
cancel_ok env id w table h = go (
    find_counted id is_cancellable w.rows (IsTable-Distinct w.rows table)
      (rw (call-rows env w) at (cancel-eq-ok env id w h)))
  where
    t : ℕ
    t = (call env w).1.now

    go :
        ((n : Notification) × (find (has_id id) w.rows ≡ some n) × (is_cancellable n ≡ true))
        → (n : Notification) × (find (has_id id) w.rows ≡ some n)
          × ((n.status ≡ status_pending) ⊎ (n.status ≡ status_queued))
          × (find (has_id id) (cancel env id w).1.rows
              ≡ some (record n { status = status_cancelled; updated_at = t }))
    go (n, found, able) = (
      n,
      found,
      is_cancellable_cases n able,
      rw (cancel-ok_rows env id w h) (
          find-map_where (set_cancelled id).hit (touched t ((set_cancelled id).set t)) id w.rows
            (λ m. refl)
          ∙ (ap (Option.map (changed (set_cancelled id).hit (touched t ((set_cancelled id).set t))))
                found
              ∙ ap some (changed_cancelled id t n (find-has_id id w.rows found) able))),
    )
