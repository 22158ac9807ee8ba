-- ===== src/Repository/Lifecycle.antt =====
-- The statements on a notification's row: they keep the table's invariant, and what `Cancel` and the
-- status updates do to the row that they name, and to no other.
use notification_system.Base.{
  ℕ, String, List, [], ◌∷◌, ◌==◌, ◌≡◌, refl, ◌⊎◌, inl, inr, arith, Bool-cases,
}
use notification_system.Domain.Errors.{Result, ok, err}
use notification_system.Domain.Notification.{Notification}
use notification_system.World.{Env, World, call, bind, draw_uuid}
use notification_system.Repository.Sql.{Statement, update, query, stored, insert}
use notification_system.Repository.Notifications.{
  with_defaults, new_row, create, update_status, update_sent, update_failed, increment_retry,
  cancel, set_status, set_sent, set_failed, set_retry, set_cancelled, some_row, cancelled_rows,
}
use notification_system.Repository.Batches.{create_batch}
use notification_system.Repository.Batches.Atomic.{
  Outcome, aborted, committed, unconfirmed, create_batch_atomic,
}
use notification_system.Repository.Batches.Frames.{OnlyRows, bind-OnlyRows, create_batch-OnlyRows}
use notification_system.Repository.Tables.{IsTable, update-IsTable, insert-IsTable}

-- The repository's operations that write.
pub data Operation : Type 0 where
  creates : Notification → Operation
  creates_batch : List Notification → Operation
  marks : ℕ → String → Operation
  sends fails : ℕ → String → Operation
  retries : ℕ → ℕ → Operation
  cancels : ℕ → Operation

unfoldable pub apply : Env → Operation → World → World
apply env (creates n) w = (create env n w).1
apply env (creates_batch ns) w = (create_batch env ns w).1
apply env (marks id status) w = (update_status env id status w).1
apply env (sends id message_id) w = (update_sent env id message_id w).1
apply env (fails id text) w = (update_failed env id text w).1
apply env (retries id next) w = (increment_retry env id next w).1
apply env (cancels id) w = (cancel env id w).1

unfoldable pub apply_all : Env → List Operation → World → World
apply_all env [] w = w
apply_all env (o ∷ os) w = apply_all env os (apply env o w)

-- An action that follows another keeps what that one keeps.
pub bind-IsTable :
    {A B : Type 0} (s : Result A × World) (k : A → World → Result B × World)
    → ((a : A) (w : World) → IsTable w.rows → IsTable (k a w).1.rows)
    → IsTable s.1.rows
    → IsTable (bind s k).1.rows
bind-IsTable (ok a, w) k h t = h a w t
bind-IsTable (err e, w) k h t = t

some_row-IsTable :
    (env : Env) (id affected : ℕ) (w : World)
    → IsTable w.rows
    → IsTable (some_row env id affected w).1.rows
unfolding some_row
some_row-IsTable env id affected w t = elim (Bool-cases (affected == 0)) [
  | inl e ↦ rw e t
  | inr e ↦ rw e t
]

pub cancelled_rows-rows :
    (env : Env) (id affected : ℕ) (w : World) → (cancelled_rows env id affected w).1.rows ≡ w.rows
unfolding cancelled_rows query call
cancelled_rows-rows env id affected w = ground arith

-- The row that `Create` sends.
unfoldable pub row_of : Env → Notification → World → Notification
row_of env n w = let (n', w') = with_defaults env n w in new_row env (call env w').1.now n'

create_rows :
    (env : Env) (n : Notification) (w : World)
    → ((create env n w).1.rows ≡ w.rows)
      ⊎ (insert (row_of env n w) w.rows ≡ stored (create env n w).1.rows)
unfolding create call draw_uuid row_of
create_rows env n w = ground arith

Outcome-IsTable :
    {env : Env} {rows ns : List Notification} {s : Result (List Notification) × World}
    → Outcome env rows ns s
    → IsTable rows
    → IsTable s.1.rows
Outcome-IsTable (aborted e w same c) t = rw same t
Outcome-IsTable (committed created w l r sound) t = sound
Outcome-IsTable (unconfirmed e created w m last l r sound) t = sound

pub apply-IsTable :
    (env : Env) (o : Operation) (w : World) → IsTable w.rows → IsTable (apply env o w).rows
unfolding apply update_status update_sent update_failed increment_retry cancel
apply-IsTable env (creates n) w t = elim (create_rows env n w) [
  | inl same ↦ rw same t
  | inr e ↦ insert-IsTable (row_of env n w) w.rows e t
]
apply-IsTable env (creates_batch ns) w t = Outcome-IsTable (create_batch_atomic env ns w t) t
apply-IsTable env (marks id status) w t =
    bind-IsTable (update env (set_status id status) w) (some_row env id) (some_row-IsTable env id)
      (update-IsTable env (set_status id status) w (λ now n. (refl, refl)) t)
apply-IsTable env (sends id message_id) w t =
    bind-IsTable (update env (set_sent id message_id) w) (some_row env id) (some_row-IsTable env id)
      (update-IsTable env (set_sent id message_id) w (λ now n. (refl, refl)) t)
apply-IsTable env (fails id text) w t =
    bind-IsTable (update env (set_failed id text) w) (some_row env id) (some_row-IsTable env id)
      (update-IsTable env (set_failed id text) w (λ now n. (refl, refl)) t)
apply-IsTable env (retries id next) w t =
    bind-IsTable (update env (set_retry id (env.timestamptz next)) w) (some_row env id)
      (some_row-IsTable env id)
      (update-IsTable env (set_retry id (env.timestamptz next)) w (λ now n. (refl, refl)) t)
apply-IsTable env (cancels id) w t =
    bind-IsTable (update env (set_cancelled id) w) (cancelled_rows env id)
      (λ a w' t'. rw (cancelled_rows-rows env id a w') t')
      (update-IsTable env (set_cancelled id) w (λ now n. (refl, refl)) t)

update-OnlyRows : (env : Env) (s : Statement) (w : World) → OnlyRows w (update env s w).1
unfolding update call
update-OnlyRows env s w = ground arith

cancelled_rows-OnlyRows :
    (env : Env) (id affected : ℕ) (w : World) → OnlyRows w (cancelled_rows env id affected w).1
unfolding cancelled_rows query call
cancelled_rows-OnlyRows env id affected w = ground arith

-- A write to the table leaves everything else alone.
pub apply-OnlyRows : (env : Env) (o : Operation) (w : World) → OnlyRows w (apply env o w)
unfolding apply update_status update_sent update_failed increment_retry cancel create update call
    draw_uuid some_row
apply-OnlyRows env (creates n) w = ground arith
apply-OnlyRows env (creates_batch ns) w = create_batch-OnlyRows env ns w
apply-OnlyRows env (marks id status) w = ground arith
apply-OnlyRows env (sends id message_id) w = ground arith
apply-OnlyRows env (fails id text) w = ground arith
apply-OnlyRows env (retries id next) w = ground arith
apply-OnlyRows env (cancels id) w =
    bind-OnlyRows (update env (set_cancelled id) w) (cancelled_rows env id)
      (update-OnlyRows env (set_cancelled id) w) (λ a v. cancelled_rows-OnlyRows env id a v)

-- From a table whose rows are legal and of which no two share an id or an idempotency key, whatever
-- the repository is asked to write, in whatever order, and whichever of its calls fail, the rows
-- stay so.
pub apply_all-IsTable :
    (env : Env) (os : List Operation) (w : World)
    → IsTable w.rows
    → IsTable (apply_all env os w).rows
unfolding apply_all
apply_all-IsTable env [] w t = t
apply_all-IsTable env (o ∷ os) w t =
    apply_all-IsTable env os (apply env o w) (apply-IsTable env o w t)
