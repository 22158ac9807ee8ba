-- ===== src/Repository/Listing/Pages.antt =====
-- Following the cursors from page to page.
use notification_system.Base.{
  subst, ◌-◌, lt→ltb, ℕ, zero, suc, ◌≤◌, ◌<◌, List, [], ◌∷◌, ◌++◌, Option, none, some, true, false,
  ◌≡◌, refl, sym, ap, ◌∙◌, inl, inr, arith, filter, take, length, length-append, ltb, Bool-cases,
  ltb→lt,
}
use mathlib.Core.List.{append_assoc, append-nil, Perm}
use notification_system.Repository.Sql.Sorting.{sort-Perm}
use notification_system.Domain.Notification.{Notification}
use notification_system.Repository.Tables.{IsTable}
use notification_system.Repository.Listing.{
  Cursor, ListFilters, precedes, cursor_of, beyond, matches, select, last_cursor, page_of,
  page_size, list_page,
}
use notification_system.Repository.Listing.Order.{
  Strict, matching, matching-Strict, sort-cursor, filter-beyond,
}

-- A client that asks for the next page as long as there is a cursor, `fuel` pages at most: what it
-- has read, the table staying as it is.
pub read_pages : ListFilters → ℕ → List Notification → ℕ → Option Cursor → List Notification
read_pages f limit rows zero cursor = []
read_pages f limit rows (suc fuel) cursor =
    let r = list_page f cursor limit rows in
    r.notifications
    ++ (elim r.next_cursor [ none ↦ [] | some c ↦ read_pages f limit rows fuel (some c) ])

-- A list longer than a page: the page with its last row, and the rows behind it.
record Cut (k : ℕ) (rest : List Notification) : Type 0 where
  page : List Notification
  last : Notification
  behind : List Notification
  whole : rest ≡ page ++ last ∷ behind
  taken : take (suc k) (take (suc (suc k)) rest) ≡ page ++ last ∷ []

cut : (k : ℕ) (rest : List Notification) → suc k < length rest → Cut k rest
cut k [] h = absurd (omega arith)
cut zero (n ∷ rest) h = record { page = []; last = n; behind = rest; whole = refl; taken = refl }
cut (suc k) (n ∷ rest) h =
    let c = cut k rest (omega arith) in
    record {
      page = n ∷ c.page;
      last = c.last;
      behind = c.behind;
      whole = ap (◌∷◌ n) c.whole;
      taken = ap (◌∷◌ n) c.taken;
    }

last_cursor-append :
    (ns : List Notification) (l : Notification) → last_cursor (ns ++ l ∷ []) ≡ some (cursor_of l)
unfolding last_cursor
last_cursor-append [] l = refl
last_cursor-append (n ∷ []) l = refl
last_cursor-append (n ∷ m ∷ ns) l = last_cursor-append (m ∷ ns) l

length-take_longer :
    (k : ℕ) (rest : List Notification) → k < length rest → length (take (suc k) rest) ≡ suc k
length-take_longer k [] h = absurd (omega arith)
length-take_longer zero (n ∷ rest) h = omega arith
length-take_longer (suc k) (n ∷ rest) h = ap suc (length-take_longer k rest (omega arith))

take-all : (k : ℕ) (rest : List Notification) → length rest ≤ k → take (suc k) rest ≡ rest
take-all k [] h = refl
take-all zero (n ∷ rest) h = absurd (omega arith)
take-all (suc k) (n ∷ rest) h = ap (◌∷◌ n) (take-all k rest (omega arith))

page_last :
    (k : ℕ) (rest : List Notification)
    → length rest ≤ suc k
    → page_of (suc k) (take (suc (suc k)) rest)
      ≡ record { notifications = rest; next_cursor = none; has_more = false }
unfolding page_of
page_last k rest h = rw (take-all (suc k) rest h) (ground arith)

page_more :
    (k : ℕ) (rest : List Notification) (h : suc k < length rest)
    → let c = cut k rest h in
      page_of (suc k) (take (suc (suc k)) rest) ≡ record {
        notifications = c.page ++ c.last ∷ [];
        next_cursor = some (cursor_of c.last);
        has_more = true;
      }
unfolding page_of
page_more k rest h =
    let c = cut k rest h in
    rw (
      length-take_longer (suc k) rest h,
      lt→ltb (suc k) (suc (suc k)) (omega arith),
      c.taken,
      last_cursor-append c.page c.last,
    )

module _ (f : ListFilters) (limit : ℕ) (rows : List Notification) (table : IsTable rows) where
  -- The page size is positive.
  size_suc : (k : ℕ) × (page_size limit ≡ suc k)
  size_suc = (page_size limit - 1, ground arith)

  page_at :
      (cursor : Option Cursor) (rest : List Notification)
      → filter (beyond cursor) (matching f rows) ≡ rest
      → list_page f cursor limit rows ≡ page_of (suc size_suc.0) (take (suc (suc size_suc.0)) rest)
  unfolding list_page select
  page_at cursor rest e = rw (sort-cursor f (beyond cursor) rows, e, size_suc.1)

  read_rest :
      (fuel : ℕ) (cursor : Option Cursor) (seen rest : List Notification)
      → matching f rows ≡ seen ++ rest
      → filter (beyond cursor) (matching f rows) ≡ rest
      → length rest < fuel
      → read_pages f limit rows fuel cursor ≡ rest
  unfolding read_pages
  read_rest zero cursor seen rest e e' h = absurd (omega arith)
  read_rest (suc fuel) cursor seen rest e e' h =
      elim (Bool-cases (ltb (suc size_suc.0) (length rest))) [
        | inr short ↦
            rw (page_at cursor rest e' ∙ page_last size_suc.0 rest (ground arith)) (append-nil rest)
        | inl long ↦
            let h' = ltb→lt (suc size_suc.0) (length rest) long in
            let c = cut size_suc.0 rest h' in
            let before_last = seen ++ c.page in
            let whole =
              e
              ∙ (ap (λ l. seen ++ l) c.whole
                  ∙ sym (append_assoc seen c.page (c.last ∷ c.behind))) in
            rw (page_at cursor rest e' ∙ page_more size_suc.0 rest h') (
              ap (λ l. (c.page ++ c.last ∷ []) ++ l)
                (read_rest fuel (some (cursor_of c.last)) (before_last ++ c.last ∷ []) c.behind
                  (whole ∙ sym (append_assoc before_last (c.last ∷ []) c.behind))
                  (rw whole (
                    filter-beyond before_last c.last c.behind
                      (subst Strict whole (matching-Strict f rows table))))
                  (omega (arith, ap length c.whole, length-append c.page (c.last ∷ c.behind))))
              ∙ (append_assoc c.page (c.last ∷ []) c.behind ∙ sym c.whole))
      ]

  filter-none : (ns : List Notification) → filter (beyond none) ns ≡ ns
  filter-none [] = refl
  filter-none (n ∷ ns) = ap (◌∷◌ n) (filter-none ns)

  -- Reading page after page from a table that does not change meanwhile and whose rows are legal
  -- and distinct, whatever the page size, a client gets every row that the filters let through
  -- exactly once, newest first: what it has read is a rearrangement of those rows in strict order.
  -- One page more than there are such rows is enough.
  pub read_pages_complete :
      (fuel : ℕ)
      → length (matching f rows) < fuel
      → (read_pages f limit rows fuel none ≡ matching f rows)
        × Perm (matching f rows) (filter (matches f) rows)
        × Strict (matching f rows)
  read_pages_complete fuel h = (
    read_rest fuel none [] (matching f rows) refl (filter-none (matching f rows)) h,
    unfold matching in sort-Perm precedes (filter (matches f) rows),
    matching-Strict f rows table,
  )
