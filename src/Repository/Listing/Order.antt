-- ===== src/Repository/Listing/Order.antt =====
-- The order of the list, newest first, is a strict total order of rows with different ids.
use notification_system.Base.{
  List, [], ◌∷◌, ◌++◌, Bool, true, false, ◌&&◌, ◌≡◌, refl, ap, arith, filter, All, ◌∙◌, some,
}
use notification_system.Domain.Notification.{Notification}
use notification_system.Repository.Distinct.{
  Apart, Distinct, IsTable-Distinct, filter-Distinct, sort-Distinct,
}
use notification_system.Repository.Tables.{IsTable}
use notification_system.Repository.Sql.Sorting.{sort, Sorted, sort-Sorted, sort-filter}
use notification_system.Repository.Listing.{
  Cursor, before, cursor_of, precedes, beyond, matches, ListFilters,
}

precedes_total : (n m : Notification) → precedes n m ≡ false → precedes m n ≡ true
precedes_total n m h = ground arith

precedes_trans :
    (x y z : Notification) → precedes x y ≡ true → precedes y z ≡ true → precedes x z ≡ true
precedes_trans x y z h k = ground arith

-- Each row stands strictly before those behind it.
abbrev pub Strict : List Notification → Type 0
Strict [] = Unit
Strict (n ∷ ns) = All (λ m. before (cursor_of n) (cursor_of m) ≡ true) ns × Strict ns

strict_head :
    (n : Notification) (ns : List Notification)
    → All (λ m. precedes n m ≡ true) ns
    → Apart n ns
    → All (λ m. before (cursor_of n) (cursor_of m) ≡ true) ns
strict_head n [] s a = tt
strict_head n (m ∷ ns) (h, s) (k, a) = (ground arith, strict_head n ns s a)

Strict-of_Sorted : (ns : List Notification) → Sorted precedes ns → Distinct ns → Strict ns
Strict-of_Sorted [] s d = tt
Strict-of_Sorted (n ∷ ns) (h, s) (a, d) = (strict_head n ns h a, Strict-of_Sorted ns s d)

-- All the rows that the filters let through, in the order of the list.
unfoldable pub matching : ListFilters → List Notification → List Notification
matching f rows = sort precedes (filter (matches f) rows)

pub matching-Strict :
    (f : ListFilters) (rows : List Notification) → IsTable rows → Strict (matching f rows)
unfolding matching
matching-Strict f rows t =
    Strict-of_Sorted _
      (sort-Sorted precedes precedes_total precedes_trans (filter (matches f) rows))
      (sort-Distinct precedes _ (filter-Distinct (matches f) rows (IsTable-Distinct rows t)))

filter_and :
    (p q : Notification → Bool) (ns : List Notification)
    → filter (λ n. p n && q n) ns ≡ filter q (filter p ns)
filter_and p q [] = refl
filter_and p q (n ∷ ns) = ground (arith, filter_and p q ns)

-- The query with a cursor sorts the rows behind it: it is the whole list, cut at the cursor.
pub sort-cursor :
    (f : ListFilters) (p : Notification → Bool) (rows : List Notification)
    → sort precedes (filter (λ n. matches f n && p n) rows) ≡ filter p (matching f rows)
unfolding matching
sort-cursor f p rows =
    ap (sort precedes) (filter_and (matches f) p rows)
    ∙ sort-filter precedes precedes_total precedes_trans p (filter (matches f) rows)

keep-All :
    (l : Notification) (rest : List Notification)
    → All (λ m. before (cursor_of l) (cursor_of m) ≡ true) rest
    → filter (beyond (some (cursor_of l))) rest ≡ rest
keep-All l [] a = refl
keep-All l (m ∷ rest) (h, a) = rw h (ap (◌∷◌ m) (keep-All l rest a))

before_irrefl : (c : Cursor) → before c c ≡ false
before_irrefl c = ground arith

before_asymm : (a b : Cursor) → before a b ≡ true → before b a ≡ false
before_asymm a b h = ground arith

All_at :
    (P : Notification → Type 0) (ns : List Notification) (l : Notification)
    (rest : List Notification)
    → All P (ns ++ l ∷ rest)
    → P l
All_at P [] l rest (h, a) = h
All_at P (n ∷ ns) l rest (h, a) = All_at P ns l rest a

-- Cut at the row `l`, a strictly ordered list leaves what stands behind `l`.
pub filter-beyond :
    (ns : List Notification) (l : Notification) (rest : List Notification)
    → Strict (ns ++ l ∷ rest)
    → filter (beyond (some (cursor_of l))) (ns ++ l ∷ rest) ≡ rest
filter-beyond [] l rest (a, s) = rw (before_irrefl (cursor_of l)) (keep-All l rest a)
filter-beyond (n ∷ ns) l rest (a, s) =
    rw
      (before_asymm (cursor_of n) (cursor_of l)
        (All_at (λ m. before (cursor_of n) (cursor_of m) ≡ true) ns l rest a))
      (filter-beyond ns l rest s)
