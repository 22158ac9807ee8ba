-- ===== src/Repository/Sql/Sorting.antt =====
-- `ORDER BY`, as insertion sort by a test "need not come after"; rows that tie keep the table's
-- order, which SQL leaves open.
use mathlib.Core.List.{Perm}
use mathlib.Core.List.Perm
use notification_system.Base.{
  List, [], ◌∷◌, Bool, true, false, if◌then◌else◌, filter, All, ◌≡◌, refl, inl, inr, ap, ◌∙◌, sym,
  Bool-cases, arith,
}

module _ {ℓ} {A : Type ℓ} (first : A → A → Bool) where
  unfoldable pub place : A → List A → List A
  place x [] = x ∷ []
  place x (y ∷ ys) = if first x y then x ∷ y ∷ ys else y ∷ place x ys

  unfoldable pub sort : List A → List A
  sort [] = []
  sort (x ∷ xs) = place x (sort xs)

  place-Perm : (x : A) (ys : List A) → Perm (place x ys) (x ∷ ys)
  unfolding place
  place-Perm x [] = Perm.refl _
  place-Perm x (y ∷ ys) = elim (Bool-cases (first x y)) [
    | inl e ↦ rw e (Perm.refl _)
    | inr e ↦ rw e (Perm.trans (Perm.cons y (place-Perm x ys)) (Perm.swap x y ys))
  ]

  -- Sorting rearranges.
  pub sort-Perm : (xs : List A) → Perm (sort xs) xs
  unfolding sort
  sort-Perm [] = Perm.refl _
  sort-Perm (x ∷ xs) = Perm.trans (place-Perm x (sort xs)) (Perm.cons x (sort-Perm xs))

  -- Every row need not come after those behind it.
  abbrev pub Sorted : List A → Type 0
  Sorted [] = Unit
  Sorted (x ∷ xs) = All (λ y. first x y ≡ true) xs × Sorted xs

  module _ (total : (x y : A) → first x y ≡ false → first y x ≡ true)
      (trans : (x y z : A) → first x y ≡ true → first y z ≡ true → first x z ≡ true) where
    All-trans :
        (x y : A) (ys : List A)
        → first x y ≡ true
        → All (λ z. first y z ≡ true) ys
        → All (λ z. first x z ≡ true) ys
    All-trans x y [] h a = tt
    All-trans x y (z ∷ ys) h (p, a) = (trans x y z h p, All-trans x y ys h a)

    pub All-place : (P : A → Type 0) (x : A) (ys : List A) → P x → All P ys → All P (place x ys)
    unfolding place
    All-place P x [] p a = (p, tt)
    All-place P x (y ∷ ys) p (q, a) = elim (Bool-cases (first x y)) [
      | inl e ↦ rw e (p, (q, a))
      | inr e ↦ rw e (q, All-place P x ys p a)
    ]

    place-Sorted : (x : A) (ys : List A) → Sorted ys → Sorted (place x ys)
    unfolding place
    place-Sorted x [] s = (tt, tt)
    place-Sorted x (y ∷ ys) (a, s) = elim (Bool-cases (first x y)) [
      | inl e ↦ rw e ((e, All-trans x y ys e a), (a, s))
      | inr e ↦ rw e (All-place (λ z. first y z ≡ true) x ys (total x y e) a, place-Sorted x ys s)
    ]

    pub sort-Sorted : (xs : List A) → Sorted (sort xs)
    unfolding sort
    sort-Sorted [] = tt
    sort-Sorted (x ∷ xs) = place-Sorted x (sort xs) (sort-Sorted xs)

    pub All-filter : (P : A → Type 0) (p : A → Bool) (xs : List A) → All P xs → All P (filter p xs)
    All-filter P p [] a = tt
    All-filter P p (x ∷ xs) (q, a) = elim (Bool-cases (p x)) [
      | inl e ↦ rw e (q, All-filter P p xs a)
      | inr e ↦ rw e (All-filter P p xs a)
    ]

    place_first : (x : A) (ys : List A) → All (λ y. first x y ≡ true) ys → place x ys ≡ x ∷ ys
    unfolding place
    place_first x [] a = refl
    place_first x (y ∷ ys) (e, a) = rw e

    filter-place_in :
        (p : A → Bool) (x : A) (ys : List A)
        → p x ≡ true
        → Sorted ys
        → filter p (place x ys) ≡ place x (filter p ys)
    unfolding place
    filter-place_in p x [] h s = rw h
    filter-place_in p x (y ∷ ys) h (a, s) = elim (Bool-cases (first x y)) [
      | inl e ↦
          let firsts = All-filter (λ z. first x z ≡ true) p (y ∷ ys) (e, All-trans x y ys e a) in
          rw (e, h) (sym (place_first x (filter p (y ∷ ys)) firsts))
      | inr e ↦ elim (Bool-cases (p y)) [
        | inl q ↦ rw (e, q) (rw e (ap (◌∷◌ y) (filter-place_in p x ys h s)))
        | inr q ↦ rw (e, q) (filter-place_in p x ys h s)
      ]
    ]

    filter-place_out :
        (p : A → Bool) (x : A) (ys : List A) → p x ≡ false → filter p (place x ys) ≡ filter p ys
    unfolding place
    filter-place_out p x [] h = rw h
    filter-place_out p x (y ∷ ys) h = ground (arith, filter-place_out p x ys h)

    -- A condition may be checked before or after sorting.
    pub sort-filter : (p : A → Bool) (xs : List A) → sort (filter p xs) ≡ filter p (sort xs)
    unfolding sort
    sort-filter p [] = refl
    sort-filter p (x ∷ xs) = elim (Bool-cases (p x)) [
      | inl e ↦
          rw e (
            ap (place x) (sort-filter p xs)
            ∙ sym (filter-place_in p x (sort xs) e (sort-Sorted xs)))
      | inr e ↦ rw e (sort-filter p xs ∙ sym (filter-place_out p x (sort xs) e))
    ]
