-- ===== src/Repository/Sql.antt =====
-- The tables of migrations/, and what PostgreSQL does with the statements that the repository sends:
-- `UPDATE ... WHERE`, `INSERT`, and `SELECT` with `ORDER BY` and `LIMIT`. A statement runs when its
-- call ends, and its `NOW()` is that time. Whether a call goes through is the environment's choice.
pub mod Sorting
use notification_system.Base.{
  ℕ, String, count, List, [], ◌∷◌, ◌++◌, map, Option, none, some, Bool, true, false, not, ◌&&◌,
  ◌||◌, ◌==◌, leb, str_eq, ◌<>◌, filter, any, find, length, if◌then◌else◌,
}
use notification_system.Domain.Errors.{Result, ok, err, Error, wrapped}
use notification_system.Domain.Notification.{
  Notification, status_pending, status_queued, status_processing, status_sent, status_delivered,
  status_failed, status_cancelled, is_valid_channel, is_valid_priority,
}
use notification_system.World.{Env, World, Verdict, answered, refused, unread, Action, call}

-- CONSTRAINT chk_status.
unfoldable pub is_valid_status : String → Bool
is_valid_status s =
    str_eq s status_pending
    || (str_eq s status_queued
        || (str_eq s status_processing
            || (str_eq s status_sent
                || (str_eq s status_delivered
                    || (str_eq s status_failed || str_eq s status_cancelled)))))

-- A value of a column VARCHAR(255), which counts characters; NULL fits.
abbrev pub fits_varchar : Option String → Bool
fits_varchar none = true
fits_varchar (some s) = leb (count s) 255

-- The constraints of a row on its own: those of chk_channel, chk_status and chk_priority, and the
-- lengths of the columns that these leave open.
unfoldable pub is_legal : Notification → Bool
unfolding is_valid_status
is_legal n =
    is_valid_channel n.channel
    && (is_valid_status n.status
        && (is_valid_priority n.priority
            && (fits_varchar n.idempotency_key
                && (fits_varchar (some n.recipient)
                    && (fits_varchar n.subject && fits_varchar n.provider_message_id)))))

abbrev pub same_key : Option String → Option String → Bool
same_key (some a) (some b) = str_eq a b
same_key (some a) none = false
same_key none k = false

-- The unique indexes: the primary key and the idempotency key, where NULLs differ from one another.
unfoldable pub clashes : Notification → List Notification → Bool
clashes n rows = any (λ m. m.id == n.id || same_key m.idempotency_key n.idempotency_key) rows

unfoldable pub map_where :
    (Notification → Bool) → (Notification → Notification) → List Notification → List Notification
map_where hit f [] = []
map_where hit f (n ∷ rows) = (if hit n then f n else n) ∷ map_where hit f rows

-- The trigger set_updated_at.
abbrev pub touched : ℕ → (Notification → Notification) → Notification → Notification
touched now f n = record (f n) { updated_at = now }

-- A row that the statement would leave illegal makes it fail as a whole.
unfoldable pub breaks :
    (Notification → Bool) → (Notification → Notification) → List Notification → Bool
breaks hit f rows = any (λ n. hit n && not (is_legal (f n))) rows

-- An UPDATE: the words of its error, its condition, and what it sets at a time.
pub record Statement : Type 0 where
  pub context : String
  pub hit : Notification → Bool
  pub set : ℕ → Notification → Notification

applied : Statement → World → World
applied s w = record w { rows = map_where s.hit (touched w.now (s.set w.now)) w.rows }

violated : Env → Statement → Result ℕ
violated env s = err (wrapped (s.context <> ": " <> env.violation))

-- `ExecContext` of an UPDATE and `RowsAffected`: the number of rows that the condition picked.
update_after : Env → Statement → Verdict × World → Result ℕ × World
update_after env s (refused m, w) = (err (wrapped (s.context <> ": " <> m)), w)
update_after env s (unread m, w) =
    if breaks s.hit (s.set w.now) w.rows
    then (violated env s, w)
    else (err (wrapped ("checking rows affected: " <> m)), applied s w)
update_after env s (answered, w) =
    if breaks s.hit (s.set w.now) w.rows
    then (violated env s, w)
    else (ok (length (filter s.hit w.rows)), applied s w)

unfoldable pub update : Env → Statement → Action ℕ
unfolding update_after applied violated
update env s w = update_after env s (call env w)

-- A query: what it reads, or the error of the call or of reading its rows, each under its words.
query_after {ℓ} : {A : Type ℓ} → String → String → (World → A) → Verdict × World → Result A × World
query_after context reading read (answered, w) = (ok (read w), w)
query_after context reading read (refused m, w) = (err (wrapped (context <> ": " <> m)), w)
query_after context reading read (unread m, w) = (err (wrapped (reading <> ": " <> m)), w)

unfoldable pub query {ℓ} : {A : Type ℓ} → Env → String → String → (World → A) → Action A
unfolding query_after
query env context reading read w = query_after context reading read (call env w)

-- What an INSERT does to a table: an illegal row and a clash are refused.
pub data Inserted : Type 0 where
  illegal duplicate : Inserted
  stored : List Notification → Inserted

unfoldable pub insert : Notification → List Notification → Inserted
insert n rows =
    if not (is_legal n)
    then illegal
    else if clashes n rows
    then duplicate
    else stored (rows ++ n ∷ [])
