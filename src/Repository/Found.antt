-- ===== src/Repository/Found.antt =====
-- A stored row, and what reads and updates do to it when every call goes through.
use mathlib.Core.Option
use notification_system.Base.{
  ℕ, ◌≤◌, String, count, List, [], ◌∷◌, some, Bool, true, false, ◌==◌, ◌≡◌, refl, ap, ◌∙◌, arith,
  find, filter, length, ◌++◌, Bool-cases, inl, inr, subst,
}
use notification_system.Domain.Errors.{ok}
use notification_system.Domain.Notification.{Notification}
use notification_system.World.{Env, World, answered, call, draw_uuid, bind}
use notification_system.Repository.Sql.{
  is_legal, is_valid_status, map_where, touched, breaks, clashes, insert, stored, Statement, update,
  query,
}
use notification_system.Repository.Notifications.{
  has_id, create, get_by_id, update_status, set_status, set_sent, some_row,
}
use notification_system.Repository.Tables.{IsTable}
use notification_system.Repository.Lifecycle.{apply, apply-IsTable, marks, creates}
use notification_system.Repository.Cancelling.{changed, find-map_where, find-has_id}

-- A change that keeps legal rows legal breaks no table.
pub breaks_of_legal :
    (hit : Notification → Bool) (g : Notification → Notification) (rows : List Notification)
    → ((n : Notification) → is_legal n ≡ true → is_legal (g n) ≡ true)
    → IsTable rows
    → breaks hit g rows ≡ false
unfolding breaks
breaks_of_legal hit g [] k t = refl
breaks_of_legal hit g (n ∷ rows) k (l, c, t) =
    rw (k n l) (ground (arith, breaks_of_legal hit g rows k t))

pub found_counts :
    (id : ℕ) (rows : List Notification) {n : Notification}
    → find (has_id id) rows ≡ some n
    → (length (filter (has_id id) rows) == 0) ≡ false
found_counts id [] e = cc
found_counts id (m ∷ rows) {n} e = ground (arith, found_counts id rows {n = n})

pub status-is_legal :
    (status : String) (n : Notification)
    → is_valid_status status ≡ true
    → is_legal n ≡ true
    → is_legal (record n { status = status }) ≡ true
unfolding is_legal
status-is_legal status n v l = ground arith

pub sent-is_legal :
    (message_id : String) (now : ℕ) (n : Notification)
    → count message_id ≤ 255
    → is_legal n ≡ true
    → is_legal ((set_sent 0 message_id).set now n) ≡ true
unfolding is_legal
sent-is_legal message_id now n v l = ground arith

-- `n` is the row of `id` in a table whose rows are legal and distinct.
pub record HasRow (id : ℕ) (n : Notification) (w : World) : Type 0 where
  pub row : find (has_id id) w.rows ≡ some n
  pub table : IsTable w.rows

pub HasRow-same :
    {id : ℕ} {n : Notification} {w w' : World} → w'.rows ≡ w.rows → HasRow id n w → HasRow id n w'
HasRow-same e h = record { row = rw e h.row; table = rw e h.table }

module _ (env : Env) (healthy : (k : ℕ) → (env.answer k).verdict ≡ answered) where
  call_answered : (w : World) → (call env w).0 ≡ answered
  unfolding call
  call_answered w = healthy w.calls

  pub get_by_id_found :
      (id : ℕ) (w : World) (n : Notification)
      → find (has_id id) w.rows ≡ some n
      → get_by_id env id w ≡ (ok n, (call env w).1)
  unfolding get_by_id query call
  get_by_id_found id w n e = ground (arith, healthy w.calls)

  pub update_answered :
      (s : Statement) (w : World)
      → breaks s.hit (s.set (call env w).1.now) w.rows ≡ false
      → update env s w ≡ (
        ok (length (filter s.hit w.rows)),
        record ((call env w).1) {
          rows = map_where s.hit (touched (call env w).1.now (s.set (call env w).1.now)) w.rows;
        },
      )
  unfolding update call
  update_answered s w b = rw (healthy w.calls, b) refl

  -- The row of `id` after an UPDATE of it.
  pub update_found :
      (context : String) (set : ℕ → Notification → Notification) (id : ℕ) (w : World)
      (n : Notification)
      → ((now : ℕ) (m : Notification) → is_legal m ≡ true → is_legal (set now m) ≡ true)
      → ((now : ℕ) (m : Notification) → (set now m).id ≡ m.id)
      → IsTable w.rows
      → find (has_id id) w.rows ≡ some n
      → let s : Statement = record { context = context; hit = has_id id; set = set } in
        let t = (call env w).1.now in
        ((bind (update env s w) (some_row env id)).0 ≡ ok tt)
        × (find (has_id id) (bind (update env s w) (some_row env id)).1.rows
            ≡ some (touched t (set t) n))
  unfolding some_row
  update_found context set id w n legal same table e =
      let t = (call env w).1.now in
      let s : Statement = record { context = context; hit = has_id id; set = set } in
      rw
        (
          update_answered s w (breaks_of_legal (has_id id) (set t) w.rows (legal t) table),
          found_counts id w.rows e,
        )
        (
          refl,
          find-map_where (has_id id) (touched t (set t)) id w.rows (same t)
              ∙ (ap (Option.map (changed (has_id id) (touched t (set t)))) e
                  ∙ rw (find-has_id id w.rows e) refl),
        )

  -- The row of `id` after `UpdateStatus`.
  pub update_status_row :
      (id : ℕ) (status : String) (n : Notification) (w : World)
      → is_valid_status status ≡ true
      → HasRow id n w
      → ((update_status env id status w).0 ≡ ok tt)
        × HasRow id
            (record n { status = status; updated_at = (call env w).1.now })
            (update_status env id status w).1
  unfolding update_status apply
  update_status_row id status n w valid h =
      let (fine, row) =
        update_found "updating status" (set_status id status).set id w n
          (λ now m l. status-is_legal status m valid l) (λ now m. refl) h.table h.row in
      (fine, record { row = row; table = apply-IsTable env (marks id status) w h.table })

find_append :
    (n : Notification) (rows : List Notification)
    → clashes n rows ≡ false
    → find (has_id n.id) (rows ++ n ∷ []) ≡ some n
unfolding clashes
find_append n [] c = ground arith
find_append n (m ∷ rows) c = ground (arith, find_append n rows)

insert-find :
    (n : Notification) (rows : List Notification) {rows' : List Notification}
    → insert n rows ≡ stored rows'
    → find (has_id n.id) rows' ≡ some n
unfolding insert
insert-find n rows {rows'} e = elim (Bool-cases (is_legal n)) [
  | inl l ↦ elim (Bool-cases (clashes n rows)) [
    | inl c ↦ absurd (ground arith)
    | inr c ↦
        let same : rows ++ n ∷ [] ≡ rows' = ground arith in
        subst (λ l. find (has_id n.id) l ≡ some n) same (find_append n rows c)
  ]
  | inr l ↦ absurd (ground arith)
]

create_inserts :
    (env : Env) (n : Notification) (w : World) {created : Notification}
    → (create env n w).0 ≡ ok created
    → insert created w.rows ≡ stored (create env n w).1.rows
unfolding create call draw_uuid
create_inserts env n w h = ground arith

-- What `Create` returns is the row that it has stored.
pub create_row :
    (env : Env) (n : Notification) (w : World) {created : Notification}
    → IsTable w.rows
    → (create env n w).0 ≡ ok created
    → HasRow created.id created (create env n w).1
unfolding apply
create_row env n w {created} table h = record {
  row = insert-find created w.rows (create_inserts env n w h);
  table = apply-IsTable env (creates n) w table;
}
