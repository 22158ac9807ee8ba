-- ===== src/Repository/Tables.antt =====
-- The invariant of the table notifications: every row is legal, and no two rows share an id or an
-- idempotency key.
use notification_system.Base.{
  subst, ◌⊎◌, ◌∙◌, ℕ, String, List, [], ◌∷◌, ◌++◌, Option, none, some, Bool, true, false, ◌==◌, ◌≡◌,
  refl, arith, eq_iff, Bool-cases, inl, inr, if◌then◌else◌,
}
use notification_system.Domain.Notification.{Notification}
use notification_system.World.{Env, World, call}
use notification_system.Repository.Sql.{
  is_legal, same_key, clashes, map_where, touched, breaks, update, Statement, insert, stored,
}

abbrev pub IsTable : List Notification → Type 0
IsTable [] = Unit
IsTable (n ∷ rows) = (is_legal n ≡ true) × (clashes n rows ≡ false) × IsTable rows

-- A change that leaves the unique columns alone.
abbrev pub KeepsKeys : (Notification → Notification) → Type 0
KeepsKeys f = (n : Notification) → ((f n).id ≡ n.id) × ((f n).idempotency_key ≡ n.idempotency_key)

clashes-map_where :
    (hit : Notification → Bool) (f : Notification → Notification) (n m : Notification)
    (rows : List Notification)
    → KeepsKeys f
    → m.id ≡ n.id
    → m.idempotency_key ≡ n.idempotency_key
    → clashes m (map_where hit f rows) ≡ clashes n rows
unfolding clashes map_where
clashes-map_where hit f n m [] k e e' = refl
clashes-map_where hit f n m (r ∷ rows) k e e' =
    ground (arith, k r, clashes-map_where hit f n m rows k e e')

-- `updated_at` is under no constraint.
is_legal-touched :
    (now : ℕ) (f : Notification → Notification) (n : Notification)
    → is_legal (touched now f n) ≡ is_legal (f n)
unfolding is_legal
is_legal-touched now f n = refl

module _ (hit : Notification → Bool) (now : ℕ) (f : Notification → Notification)
    (k : KeepsKeys f) where
  kept_head :
      (n : Notification) (rows : List Notification)
      → clashes (if hit n then touched now f n else n) (map_where hit (touched now f) rows)
        ≡ clashes n rows
  kept_head n rows = elim (Bool-cases (hit n)) [
    | inl e ↦
        rw e (clashes-map_where hit (touched now f) n (touched now f n) rows k (k n).0 (k n).1)
    | inr e ↦ rw e (clashes-map_where hit (touched now f) n n rows k refl refl)
  ]

  legal_head :
      (n : Notification) (rows : List Notification)
      → breaks hit f (n ∷ rows) ≡ false
      → is_legal n ≡ true
      → (is_legal (if hit n then touched now f n else n) ≡ true) × (breaks hit f rows ≡ false)
  unfolding breaks
  legal_head n rows b legal = ground (arith, is_legal-touched now f n)

  pub map_where-IsTable :
      (rows : List Notification)
      → breaks hit f rows ≡ false
      → IsTable rows
      → IsTable (map_where hit (touched now f) rows)
  unfolding map_where
  map_where-IsTable [] b t = tt
  map_where-IsTable (n ∷ rows) b (legal, fresh, t) =
      let (here, later) = legal_head n rows b legal in
      (here, kept_head n rows ∙ fresh, map_where-IsTable rows later t)

same_key_comm : (a b : Option String) → same_key a b ≡ same_key b a
same_key_comm none none = refl
same_key_comm none (some s) = refl
same_key_comm (some s) none = refl
same_key_comm (some s) (some u) = ground (arith, eq_iff s u, eq_iff u s)

==_comm : (a b : ℕ) → (a == b) ≡ (b == a)
==_comm a b = ground arith

clashes-append :
    (n m : Notification) (rows : List Notification)
    → clashes m (n ∷ []) ≡ false
    → clashes m rows ≡ false
    → clashes m (rows ++ n ∷ []) ≡ false
unfolding clashes
clashes-append n m [] c d = c
clashes-append n m (r ∷ rows) c d = ground (arith, clashes-append n m rows c)

clashes_swap :
    (n m : Notification) (rows : List Notification)
    → clashes n (m ∷ rows) ≡ false
    → (clashes m (n ∷ []) ≡ false) × (clashes n rows ≡ false)
unfolding clashes
clashes_swap n m rows c =
    ground (arith, ==_comm n.id m.id, same_key_comm n.idempotency_key m.idempotency_key)

append-IsTable :
    (n : Notification) (rows : List Notification)
    → is_legal n ≡ true
    → clashes n rows ≡ false
    → IsTable rows
    → IsTable (rows ++ n ∷ [])
unfolding clashes
append-IsTable n [] l c t = (l, refl, tt)
append-IsTable n (m ∷ rows) l c (lm, cm, t) =
    let (swapped, later) = clashes_swap n m rows c in
    (lm, clashes-append n m rows swapped cm, append-IsTable n rows l later t)

pub insert-IsTable :
    (n : Notification) (rows : List Notification) {rows' : List Notification}
    → insert n rows ≡ stored rows'
    → IsTable rows
    → IsTable rows'
unfolding insert
insert-IsTable n rows {rows'} e t = elim (Bool-cases (is_legal n)) [
  | inl l ↦ elim (Bool-cases (clashes n rows)) [
    | inl c ↦ absurd (ground arith)
    | inr c ↦
        let same : rows ++ n ∷ [] ≡ rows' = ground arith in
        subst IsTable same (append-IsTable n rows l c t)
  ]
  | inr l ↦ absurd (ground arith)
]

-- An UPDATE leaves the rows as they are, or changes those that the condition picks, at the time at
-- which its call ends.
pub update_rows :
    (env : Env) (s : Statement) (w : World)
    → let t = (call env w).1.now in
      ((update env s w).1.rows ≡ w.rows)
      ⊎ ((breaks s.hit (s.set t) w.rows ≡ false)
          × ((update env s w).1.rows ≡ map_where s.hit (touched t (s.set t)) w.rows))
unfolding update call
update_rows env s w = ground arith

-- An UPDATE keeps the table's invariant, whatever the call answers.
pub update-IsTable :
    (env : Env) (s : Statement) (w : World)
    → ((now : ℕ) → KeepsKeys (s.set now))
    → IsTable w.rows
    → IsTable (update env s w).1.rows
update-IsTable env s w k t = elim (update_rows env s w) [
  | inl same ↦ rw same t
  | inr (fine, changed) ↦ rw changed (map_where-IsTable s.hit _ _ (k _) w.rows fine t)
]
