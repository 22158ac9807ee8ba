-- ===== src/Repository/Listing.antt =====
-- internal/repository/postgres/notification.go, `List`, and internal/repository/notification.go,
-- `ListFilters`, `Cursor` and `ListResult`. The cursor's text (JSON in base64) is the cursor itself.
pub mod Order
pub mod Pages
use notification_system.Base.{
  ℕ, suc, String, List, [], ◌∷◌, Option, none, some, Bool, true, false, ◌&&◌, ◌||◌, not, ◌==◌, leb,
  ltb, str_eq, filter, take, length, if◌then◌else◌,
}
use notification_system.Domain.Notification.{Notification}
use notification_system.World.{Env, World, Action, ◌>>=◌}
use notification_system.Domain.Errors.{ok}
use notification_system.Repository.Sql.{query}
use notification_system.Repository.Sql.Sorting.{sort}

pub record ListFilters : Type 0 where
  pub status : Option String
  pub channel : Option String
  pub priority : Option String
  pub created_after : Option ℕ
  pub created_before : Option ℕ

pub record Cursor : Type 0 where
  pub created_at : ℕ
  pub id : ℕ

pub record ListResult : Type 0 where
  pub notifications : List Notification
  pub next_cursor : Option Cursor
  pub has_more : Bool

-- A condition that is only there if the filter is set.
abbrev pub if_set {ℓ} : {A : Type ℓ} → Option A → (A → Bool) → Bool
if_set none test = true
if_set (some a) test = test a

unfoldable pub matches : ListFilters → Notification → Bool
matches f n =
    if_set f.status (λ s. str_eq n.status s)
    && (if_set f.channel (λ c. str_eq n.channel c)
        && (if_set f.priority (λ p. str_eq n.priority p)
            && (if_set f.created_after (λ t. leb t n.created_at)
                && if_set f.created_before (λ t. leb n.created_at t))))

-- `ORDER BY created_at DESC, id DESC`: the first comes before the second.
abbrev pub before : Cursor → Cursor → Bool
before a b = ltb b.created_at a.created_at || (a.created_at == b.created_at && ltb b.id a.id)

abbrev pub cursor_of : Notification → Cursor
cursor_of n = record { created_at = n.created_at; id = n.id }

-- The sort's test: `n` need not come after `m`.
abbrev pub precedes : Notification → Notification → Bool
precedes n m = not (before (cursor_of m) (cursor_of n))

-- `(created_at, id) < ($, $)`
abbrev pub beyond : Option Cursor → Notification → Bool
beyond cursor n = if_set cursor (λ c. before c (cursor_of n))

-- The rows of the query with its LIMIT of one more than the page.
unfoldable pub select : ListFilters → Option Cursor → ℕ → List Notification → List Notification
select f cursor limit rows =
    take (suc limit) (sort precedes (filter (λ n. matches f n && beyond cursor n) rows))

unfoldable pub last_cursor : List Notification → Option Cursor
last_cursor [] = none
last_cursor (n ∷ []) = some (cursor_of n)
last_cursor (n ∷ m ∷ ns) = last_cursor (m ∷ ns)

-- The page and, if a row is left over, the cursor of the page's last row.
unfoldable pub page_of : ℕ → List Notification → ListResult
page_of limit ns =
    if ltb limit (length ns)
    then record {
      notifications = take limit ns;
      next_cursor = last_cursor (take limit ns);
      has_more = true;
    }
    else record { notifications = ns; next_cursor = none; has_more = false }

-- A limit that is not positive is 0 here, and means 20.
abbrev pub page_size : ℕ → ℕ
page_size limit = if limit == 0 then 20 else limit

unfoldable pub list_page : ListFilters → Option Cursor → ℕ → List Notification → ListResult
list_page f cursor limit rows = page_of (page_size limit) (select f cursor (page_size limit) rows)

unfoldable pub list : Env → ListFilters → Option Cursor → ℕ → Action ListResult
list env f cursor limit =
    query env "listing notifications" "scanning notification" (λ w. list_page f cursor limit w.rows)
