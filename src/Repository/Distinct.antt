-- ===== src/Repository/Distinct.antt =====
-- Rows of which no two share an id, and how they are picked and ordered.
use notification_system.Base.{
  List, [], ◌∷◌, Bool, false, ◌≡◌, ◌≢◌, sym, arith, filter, take, zero, suc, ℕ, All, Bool-cases,
  inl, inr, ◌++◌, All-append,
}
use notification_system.Domain.Notification.{Notification}
use notification_system.Repository.Sql.{clashes}
use notification_system.Repository.Sql.Sorting.{place, sort}
use notification_system.Repository.Tables.{IsTable}

abbrev pub Apart : Notification → List Notification → Type 0
Apart n = All (λ m. m.id ≢ n.id)

abbrev pub Distinct : List Notification → Type 0
Distinct [] = Unit
Distinct (n ∷ ns) = Apart n ns × Distinct ns

Apart-of_clashes :
    (n : Notification) (rows : List Notification) → clashes n rows ≡ false → Apart n rows
unfolding clashes
Apart-of_clashes n [] h = tt
Apart-of_clashes n (m ∷ rows) h = (ground arith, Apart-of_clashes n rows (ground arith))

pub IsTable-Distinct : (rows : List Notification) → IsTable rows → Distinct rows
IsTable-Distinct [] t = tt
IsTable-Distinct (n ∷ rows) (l, c, t) = (Apart-of_clashes n rows c, IsTable-Distinct rows t)

pub filter-Apart :
    (p : Notification → Bool) (n : Notification) (ns : List Notification)
    → Apart n ns
    → Apart n (filter p ns)
filter-Apart p n [] a = tt
filter-Apart p n (m ∷ ns) (h, a) = elim (Bool-cases (p m)) [
  | inl e ↦ rw e (h, filter-Apart p n ns a)
  | inr e ↦ rw e (filter-Apart p n ns a)
]

pub filter-Distinct :
    (p : Notification → Bool) (ns : List Notification) → Distinct ns → Distinct (filter p ns)
filter-Distinct p [] d = tt
filter-Distinct p (n ∷ ns) (a, d) = elim (Bool-cases (p n)) [
  | inl e ↦ rw e (filter-Apart p n ns a, filter-Distinct p ns d)
  | inr e ↦ rw e (filter-Distinct p ns d)
]

take-Apart : (k : ℕ) (n : Notification) (ns : List Notification) → Apart n ns → Apart n (take k ns)
take-Apart zero n ns a = tt
take-Apart (suc k) n [] a = tt
take-Apart (suc k) n (m ∷ ns) (h, a) = (h, take-Apart k n ns a)

pub take-Distinct : (k : ℕ) (ns : List Notification) → Distinct ns → Distinct (take k ns)
take-Distinct zero ns d = tt
take-Distinct (suc k) [] d = tt
take-Distinct (suc k) (n ∷ ns) (a, d) = (take-Apart k n ns a, take-Distinct k ns d)

pub append-Distinct :
    (ns ms : List Notification)
    → Distinct ns
    → Distinct ms
    → All (λ n. Apart n ms) ns
    → Distinct (ns ++ ms)
append-Distinct [] ms d e a = e
append-Distinct (n ∷ ns) ms (b, d) e (h, a) =
    (All-append (λ m. m.id ≢ n.id) ns ms b h, append-Distinct ns ms d e a)

module _ (first : Notification → Notification → Bool) where
  place-Apart :
      (n x : Notification) (ns : List Notification)
      → x.id ≢ n.id
      → Apart n ns
      → Apart n (place first x ns)
  unfolding place
  place-Apart n x [] h a = (h, tt)
  place-Apart n x (m ∷ ns) h (k, a) = elim (Bool-cases (first x m)) [
    | inl e ↦ rw e (h, (k, a))
    | inr e ↦ rw e (k, place-Apart n x ns h a)
  ]

  place-Distinct :
      (x : Notification) (ns : List Notification)
      → Apart x ns
      → Distinct ns
      → Distinct (place first x ns)
  unfolding place
  place-Distinct x [] a d = (tt, tt)
  place-Distinct x (m ∷ ns) (k, a) (b, d) = elim (Bool-cases (first x m)) [
    | inl e ↦ rw e ((k, a), (b, d))
    | inr e ↦ rw e (place-Apart m x ns (λ s. k (sym s)) b, place-Distinct x ns a d)
  ]

  sort-Apart : (n : Notification) (ns : List Notification) → Apart n ns → Apart n (sort first ns)
  unfolding sort
  sort-Apart n [] a = tt
  sort-Apart n (m ∷ ns) (h, a) = place-Apart n m (sort first ns) h (sort-Apart n ns a)

  pub sort-Distinct : (ns : List Notification) → Distinct ns → Distinct (sort first ns)
  unfolding sort
  sort-Distinct [] d = tt
  sort-Distinct (n ∷ ns) (a, d) =
      place-Distinct n (sort first ns) (sort-Apart n ns a) (sort-Distinct ns d)
