-- ===== src/Api/Metrics/Counts.antt =====
-- The counts of the response, beside those of the table.
use notification_system.Base.{
  ℕ, zero, suc, String, List, [], ◌∷◌, Option, none, some, ◌&&◌, ◌≡◌, refl, ◌∙◌, ap, arith, eq_iff,
  str_eq, filter, length, if◌then◌else◌, Bool-cases, inl, inr,
}
use notification_system.Base.Dict.{get, put, get-put}
use notification_system.Domain.Notification.{Notification}
use notification_system.World.{Env, World, answered, call}
use notification_system.Api.Metrics.{
  Group, is_group, add_row, groups, Counts, counts_after, or_empty, statuses, put_group, put_groups,
  get_notification_counts,
}

-- The number of a group among the lines, if it is there.
number_of : String → String → List Group → Option ℕ
number_of c s [] = none
number_of c s (g ∷ gs) = if is_group c s g then some g.number else number_of c s gs

-- No two lines are of one group.
Distinct : List Group → Type 0
Distinct [] = Unit
Distinct (g ∷ gs) = (number_of g.channel g.status gs ≡ none) × Distinct gs

-- The rows of a group.
abbrev pub rows_of : String → String → List Notification → List Notification
rows_of c s rows = filter (λ n. str_eq n.channel c && str_eq n.status s) rows

number_of-add_row :
    (c s : String) (n : Notification) (gs : List Group)
    → number_of c s (add_row n gs) ≡ (
        if str_eq n.channel c && str_eq n.status s
        then some (elim (number_of c s gs) [ none ↦ 1 | some k ↦ suc k ])
        else number_of c s gs)
unfolding number_of add_row
number_of-add_row c s n [] = ground arith
number_of-add_row c s n (g ∷ gs) = ground (
  arith,
  eq_iff n.channel c,
  eq_iff n.status s,
  eq_iff g.channel c,
  eq_iff g.status s,
  eq_iff g.channel n.channel,
  eq_iff g.status n.status,
  number_of-add_row c s n gs,
)

add_row-Distinct : (n : Notification) (gs : List Group) → Distinct gs → Distinct (add_row n gs)
unfolding Distinct add_row number_of
add_row-Distinct n [] d = (refl, tt)
add_row-Distinct n (g ∷ gs) (a, d) = elim (Bool-cases (is_group n.channel n.status g)) [
  | inl e ↦ rw e (a, d)
  | inr e ↦ rw e (
    (ground (
      arith,
      eq_iff g.channel n.channel,
      eq_iff g.status n.status,
      eq_iff n.channel g.channel,
      eq_iff n.status g.status,
      number_of-add_row g.channel g.status n gs,
    )),
    add_row-Distinct n gs d,
  )
]

-- In the map, a group has the number that it has in the lines.
count_in : String → String → Counts → Option ℕ
count_in c s m = get s (statuses c m)

count_in-put_group :
    (c s : String) (g : Group) (m : Counts)
    → count_in c s (put_group m g) ≡ (if is_group c s g then some g.number else count_in c s m)
unfolding count_in put_group
count_in-put_group c s g m =
    ap (λ o. get s (or_empty o))
      (get-put g.channel c (put g.status g.number (statuses g.channel m)) m)
    ∙ (elim (Bool-cases (str_eq g.channel c)) [
      | inl e ↦
          rw e (
            get-put g.status s g.number (statuses g.channel m) ∙ rw ((eq_iff g.channel c).0 e) refl)
      | inr e ↦ rw e refl
    ])

or_else : Option ℕ → Option ℕ → Option ℕ
or_else none other = other
or_else (some k) other = some k

or_none : (o : Option ℕ) → or_else o none ≡ o
unfolding or_else
or_none none = refl
or_none (some k) = refl

count_in-put_groups :
    (c s : String) (gs : List Group) (m : Counts)
    → Distinct gs
    → count_in c s (put_groups m gs) ≡ or_else (number_of c s gs) (count_in c s m)
unfolding Distinct number_of put_groups or_else
count_in-put_groups c s [] m d = refl
count_in-put_groups c s (g ∷ gs) m (fresh, d) =
    count_in-put_groups c s gs (put_group m g) d
    ∙ ground (arith, eq_iff g.channel c, eq_iff g.status s, count_in-put_group c s g m, fresh)

groups-Distinct : (rows : List Notification) → Distinct (groups rows)
unfolding groups Distinct
groups-Distinct [] = tt
groups-Distinct (n ∷ rows) = add_row-Distinct n (groups rows) (groups-Distinct rows)

-- What a counter of `k` rows shows: no entry where there is none.
unfoldable pub entry : ℕ → Option ℕ
entry zero = none
entry (suc k) = some (suc k)

one_more-entry : (k : ℕ) → some (elim (entry k) [ none ↦ 1 | some j ↦ suc j ]) ≡ entry (suc k)
unfolding entry
one_more-entry zero = refl
one_more-entry (suc k) = refl

number_of-groups :
    (c s : String) (rows : List Notification)
    → number_of c s (groups rows) ≡ entry (length (rows_of c s rows))
unfolding groups entry number_of
number_of-groups c s [] = refl
number_of-groups c s (n ∷ rows) =
    number_of-add_row c s n (groups rows)
    ∙ rw (number_of-groups c s rows) (elim (Bool-cases (str_eq n.channel c && str_eq n.status s)) [
      | inl e ↦ rw e (one_more-entry (length (rows_of c s rows)))
      | inr e ↦ rw e refl
    ])

-- A call that is answered counts every group of the table: for a channel and a status, the number of
-- the rows that have both, and no entry where none has.
pub counts_complete :
    (env : Env) (fetched : ℕ) (w w' : World)
    → call env w ≡ (answered, w')
    → (c s : String)
    → get s (statuses c (get_notification_counts env fetched w).0)
      ≡ entry (length (rows_of c s w'.rows))
unfolding get_notification_counts counts_after count_in or_else get
counts_complete env fetched w w' answer c s = rw answer (
    count_in-put_groups c s (groups w'.rows) [] (groups-Distinct w'.rows)
    ∙ rw (number_of-groups c s w'.rows) (or_none (entry (length (rows_of c s w'.rows)))))
