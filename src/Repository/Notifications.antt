-- ===== src/Repository/Notifications.antt =====
-- internal/repository/postgres/notification.go: the statements on one notification.
use mathlib.Core.Option
use notification_system.Base.{
  ℕ, suc, String, List, Option, none, some, Bool, true, false, ◌&&◌, ◌||◌, ◌==◌, leb, str_eq, ◌<>◌,
  filter, any, find, take, if◌then◌else◌,
}
use notification_system.Domain.Errors.{Result, ok, err, Error, err_not_found, err_conflict, wrapped}
use notification_system.Domain.Notification.{
  Notification, status_pending, status_queued, status_sent, status_failed, status_cancelled,
  priority_normal,
}
use notification_system.World.{
  Env, World, Verdict, answered, refused, unread, Action, ◌>>=◌, call, draw_uuid,
}
use notification_system.Repository.Sql.{
  Statement, update, query, Inserted, illegal, duplicate, stored, insert,
}
use notification_system.Repository.Sql.Sorting.{sort}

abbrev pub has_id : ℕ → Notification → Bool
has_id id n = n.id == id

-- The fields that `Create` fills in before the INSERT.
unfoldable pub with_defaults : Env → Notification → World → Notification × World
with_defaults env n w =
    let (id, w') = (if n.id == 0 then draw_uuid env w else (n.id, w)) in
    (
      record n {
        id = id;
        status = if str_eq n.status "" then status_pending else n.status;
        priority = if str_eq n.priority "" then priority_normal else n.priority;
        max_retries = if n.max_retries == 0 then 3 else n.max_retries;
      },
      w',
    )

-- The row that the INSERT makes of a notification: the columns that it does not name are NULL, or
-- the time of the transaction; PostgreSQL keeps the times and the JSON in its own form.
unfoldable pub new_row : Env → ℕ → Notification → Notification
new_row env now n = record n {
  scheduled_at = Option.map env.timestamptz n.scheduled_at;
  metadata = Option.map env.jsonb n.metadata;
  provider_message_id = none;
  next_retry_at = none;
  sent_at = none;
  failed_at = none;
  error_message = none;
  created_at = now;
  updated_at = now;
}

create_at : Env → Notification → Inserted → World → Result Notification × World
create_at env n illegal w = (err (wrapped ("creating notification: " <> env.violation)), w)
create_at env n duplicate w =
    (err (err_conflict "notification with this idempotency key already exists"), w)
create_at env n (stored rows) w = (ok n, record w { rows = rows })

-- The row was inserted and could not be read.
lost_result : String → Result Notification × World → Result Notification × World
lost_result m (ok n, w) = (err (wrapped ("creating notification: " <> m)), w)
lost_result m (err e, w) = (err e, w)

create_after : Env → Notification → Verdict × World → Result Notification × World
create_after env n (refused m, w) = (err (wrapped ("creating notification: " <> m)), w)
create_after env n (answered, w) =
    let row = new_row env w.now n in create_at env row (insert row w.rows) w
create_after env n (unread m, w) =
    let row = new_row env w.now n in lost_result m (create_at env row (insert row w.rows) w)

-- `Create`; the result is what `*n` holds afterwards.
unfoldable pub create : Env → Notification → Action Notification
unfolding with_defaults new_row create_at lost_result create_after
create env n w = let (n', w') = with_defaults env n w in create_after env n' (call env w')

abbrev pub not_found : Env → ℕ → Error
not_found env id = err_not_found "notification" (env.uuid_string id)

or_not_found : Env → ℕ → Option Notification → Action Notification
or_not_found env id none w = (err (not_found env id), w)
or_not_found env id (some n) w = (ok n, w)

unfoldable pub get_by_id : Env → ℕ → Action Notification
unfolding or_not_found
get_by_id env id =
    query env "getting notification" "getting notification" (λ w. find (has_id id) w.rows)
    >>= or_not_found env id

-- `rows == 0` is "not found".
unfoldable pub some_row : Env → ℕ → ℕ → Action (Unit {0})
some_row env id affected w = if affected == 0 then (err (not_found env id), w) else (ok tt, w)

abbrev pub set_status : ℕ → String → Statement
set_status id status = record {
  context = "updating status";
  hit = has_id id;
  set = λ now n. record n { status = status };
}

abbrev pub set_sent : ℕ → String → Statement
set_sent id message_id = record {
  context = "updating to sent";
  hit = has_id id;
  set = λ now n. record n {
    status = status_sent;
    sent_at = some now;
    provider_message_id = some message_id;
  };
}

abbrev pub set_failed : ℕ → String → Statement
set_failed id message = record {
  context = "updating to failed";
  hit = has_id id;
  set = λ now n. record n {
    status = status_failed;
    failed_at = some now;
    error_message = some message;
  };
}

abbrev pub set_retry : ℕ → ℕ → Statement
set_retry id next = record {
  context = "incrementing retry";
  hit = has_id id;
  set = λ now n. record n { retry_count = suc n.retry_count; next_retry_at = some next };
}

unfoldable pub update_status : Env → ℕ → String → Action (Unit {0})
unfolding some_row
update_status env id status = update env (set_status id status) >>= some_row env id

unfoldable pub update_sent : Env → ℕ → String → Action (Unit {0})
unfolding some_row
update_sent env id message_id = update env (set_sent id message_id) >>= some_row env id

unfoldable pub update_failed : Env → ℕ → String → Action (Unit {0})
unfolding some_row
update_failed env id message = update env (set_failed id message) >>= some_row env id

unfoldable pub increment_retry : Env → ℕ → ℕ → Action (Unit {0})
unfolding some_row
increment_retry env id next = update env (set_retry id (env.timestamptz next)) >>= some_row env id

-- `status IN ('pending', 'queued')`
unfoldable pub is_cancellable : Notification → Bool
is_cancellable n = str_eq n.status status_pending || str_eq n.status status_queued

abbrev pub set_cancelled : ℕ → Statement
set_cancelled id = record {
  context = "cancelling notification";
  hit = λ n. has_id id n && is_cancellable n;
  set = λ now n. record n { status = status_cancelled };
}

unfoldable pub why_not : Env → ℕ → Bool → Action (Unit {0})
why_not env id false w = (err (not_found env id), w)
why_not env id true w =
    (err (err_conflict "notification cannot be cancelled in its current status"), w)

unfoldable pub cancelled_rows : Env → ℕ → ℕ → Action (Unit {0})
unfolding why_not
cancelled_rows env id affected w =
    if affected == 0
    then (query env "checking notification existence" "checking notification existence"
            (λ w'. any (has_id id) w'.rows)
          >>= why_not env id)
        w
    else (ok tt, w)

unfoldable pub cancel : Env → ℕ → Action (Unit {0})
unfolding cancelled_rows
cancel env id = update env (set_cancelled id) >>= cancelled_rows env id

-- `status = 'pending' AND scheduled_at IS NOT NULL AND scheduled_at <= NOW()`
unfoldable pub is_ready : ℕ → Notification → Bool
is_ready now n = str_eq n.status status_pending && is_due now n.scheduled_at
  where
    is_due : ℕ → Option ℕ → Bool
    is_due now none = false
    is_due now (some t) = leb t now

abbrev pub time_of : Option ℕ → ℕ
time_of none = 0
time_of (some t) = t

-- `ORDER BY scheduled_at ASC`: whether the first stays before the second.
abbrev pub scheduled_before : Notification → Notification → Bool
scheduled_before n m = leb (time_of n.scheduled_at) (time_of m.scheduled_at)

unfoldable pub get_scheduled_ready : Env → ℕ → Action (List Notification)
unfolding is_ready
get_scheduled_ready env limit =
    query env "querying scheduled notifications" "scanning notification"
      (λ w. take limit (sort scheduled_before (filter (is_ready w.now) w.rows)))

unfoldable pub get_by_batch_id : Env → ℕ → Action (List Notification)
get_by_batch_id env batch =
    query env "querying batch notifications" "scanning notification"
      (λ w. sort (λ n m. leb n.created_at m.created_at) (filter (in_batch batch) w.rows))
  where
    in_batch : ℕ → Notification → Bool
    in_batch b n = elim n.batch_id [ none ↦ false | some c ↦ c == b ]
