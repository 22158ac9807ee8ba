-- ===== src/Repository/Batches.antt =====
-- internal/repository/postgres/notification.go, `CreateBatch`: the INSERTs of one transaction. They
-- work on the transaction's copy of the table, which the COMMIT puts in place; `NOW()` is the time
-- of the BEGIN throughout.
pub mod Atomic
pub mod Created
pub mod Frames
use notification_system.Base.{ℕ, suc, String, List, [], ◌∷◌, ◌++◌, ◌<>◌, decimal}
use notification_system.Domain.Errors.{Result, ok, err, err_conflict, wrapped}
use notification_system.Domain.Notification.{Notification}
use notification_system.World.{
  Env, World, Verdict, answered, refused, unread, Action, ◌>>=◌, bind, call,
}
use notification_system.Repository.Sql.{Inserted, illegal, duplicate, stored, insert}
use notification_system.Repository.Notifications.{with_defaults, new_row}

-- The transaction's table and the rows inserted so far, the last first.
pub record Progress : Type 0 where
  pub table : List Notification
  pub created : List Notification

failed_item : ℕ → String → Result Progress
failed_item i m = err (wrapped ("creating notification[" <> decimal i <> "]: " <> m))

insert_at : Env → ℕ → Progress → Notification → Inserted → Result Progress
insert_at env i p n illegal = failed_item i env.violation
insert_at env i p n duplicate =
    err (err_conflict ("notification[" <> decimal i <> "] has a duplicate idempotency key"))
insert_at env i p n (stored rows) = ok (record { table = rows; created = n ∷ p.created })

insert_after : Env → ℕ → ℕ → Progress → Notification → Verdict × World → Result Progress × World
insert_after env i started p n (refused m, w) = (failed_item i m, w)
insert_after env i started p n (unread m, w) = (failed_item i m, w)
insert_after env i started p n (answered, w) =
    let row = new_row env started n in (insert_at env i p row (insert row p.table), w)

-- One round of the loop.
insert_item : Env → ℕ → ℕ → Notification → Progress → Action Progress
insert_item env i started n p w =
    let (n', w') = with_defaults env n w in insert_after env i started p n' (call env w')

-- The loop from index `i`; `return` leaves it at the first error.
insert_items : Env → ℕ → ℕ → List Notification → Progress → Action Progress
insert_items env i started [] p w = (ok p, w)
insert_items env i started (n ∷ ns) p w =
    bind (insert_item env i started n p w) (insert_items env (suc i) started ns)

abbrev in_order : List Notification → List Notification → List Notification
in_order [] out = out
in_order (n ∷ ns) out = in_order ns (n ∷ out)

commit_after : Progress → Verdict × World → Result (List Notification) × World
commit_after p (answered, w) = (ok (in_order p.created []), record w { rows = p.table })
commit_after p (refused m, w) = (err (wrapped ("committing transaction: " <> m)), w)
commit_after p (unread m, w) =
    (err (wrapped ("committing transaction: " <> m)), record w { rows = p.table })

commit : Env → Progress → Action (List Notification)
commit env p w = commit_after p (call env w)

begin_after : Env → List Notification → Verdict × World → Result (List Notification) × World
begin_after env ns (refused m, w) = (err (wrapped ("beginning transaction: " <> m)), w)
begin_after env ns (unread m, w) = (err (wrapped ("beginning transaction: " <> m)), w)
begin_after env ns (answered, w) =
    bind (insert_items env 0 w.now ns (record { table = w.rows; created = [] }) w) (commit env)

-- The result is what the notifications hold afterwards.
unfoldable pub create_batch : Env → List Notification → Action (List Notification)
unfolding insert_items insert_item insert_after insert_at failed_item commit commit_after
    begin_after
create_batch env ns w = begin_after env ns (call env w)
