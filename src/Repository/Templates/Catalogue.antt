-- ===== src/Repository/Templates/Catalogue.antt =====
-- The table templates of migrations/: its invariant, what `Create` does to it, what `GetByID` finds.
use notification_system.Base.{
  ℕ, String, List, [], ◌∷◌, ◌++◌, some, Bool, true, false, ◌==◌, ◌≡◌, ◌≢◌, refl, if◌then◌else◌, sym,
  ap, ◌∙◌, arith, any, find, Bool-cases, inl, inr, eq_iff,
}
use notification_system.Domain.Errors.{Result, ok, err}
use notification_system.Domain.Template.{Template}
use notification_system.World.{Env, World, Verdict, answered, refused, unread, call, draw_uuid}
use notification_system.Repository.Sql.{query}
use notification_system.Repository.Templates.{
  is_legal_template, clashing, insert_template, unread_template, create_after, create, get_by_id,
  stamped,
}

-- The rows meet the table's constraint, and no two share an id or a name.
abbrev pub IsCatalogue : List Template → Type 0
IsCatalogue [] = Unit
IsCatalogue (t ∷ ts) = (is_legal_template t ≡ true) × (any (clashing t) ts ≡ false) × IsCatalogue ts

clashing_comm : (t u : Template) → clashing t u ≡ false → clashing u t ≡ false
unfolding clashing
clashing_comm t u h = ground (arith, eq_iff u.name t.name, eq_iff t.name u.name)

any-clashing-append :
    (t u : Template) (ts : List Template)
    → clashing u t ≡ false
    → any (clashing u) ts ≡ false
    → any (clashing u) (ts ++ t ∷ []) ≡ false
any-clashing-append t u [] c h = rw c refl
any-clashing-append t u (v ∷ ts) c h = ground (arith, any-clashing-append t u ts c)

append-IsCatalogue :
    (t : Template) (ts : List Template)
    → is_legal_template t ≡ true
    → any (clashing t) ts ≡ false
    → IsCatalogue ts
    → IsCatalogue (ts ++ t ∷ [])
append-IsCatalogue t [] l c k = (l, refl, tt)
append-IsCatalogue t (u ∷ ts) l c (lu, cu, k) =
    let here : clashing t u ≡ false = ground arith in
    let later : any (clashing t) ts ≡ false = ground arith in
    (lu, any-clashing-append t u ts (clashing_comm t u here) cu, append-IsCatalogue t ts l later k)

abbrev has_template_id : ℕ → Template → Bool
has_template_id id t = t.id == id

-- The new row is found by its id.
find-append :
    (t : Template) (ts : List Template)
    → any (clashing t) ts ≡ false
    → find (has_template_id t.id) (ts ++ t ∷ []) ≡ some t
unfolding clashing
find-append t [] c = ground arith
find-append t (u ∷ ts) c = ground (arith, find-append t ts)

-- What an INSERT can end with.
data Inserts (w : World) : Result Template × World → Type 0 where
  rejected :
      (r : Result Template) (v : World)
      → v.templates ≡ w.templates
      → ((u : Template) → r ≢ ok u)
      → Inserts w (r, v)
  inserted :
      (t : Template) (r : Result Template) (v : World)
      → is_legal_template t ≡ true
      → any (clashing t) w.templates ≡ false
      → v.templates ≡ w.templates ++ t ∷ []
      → ((u : Template) → r ≡ ok u → t ≡ u)
      → Inserts w (r, v)

insert_template-Inserts :
    (env : Env) (t : Template) (w : World) → Inserts w (insert_template env t w)
unfolding insert_template
insert_template-Inserts env t w = elim (Bool-cases (is_legal_template t)) [
  | inr e ↦ rw e (rejected _ w refl (λ u h. cc))
  | inl l ↦ elim (Bool-cases (any (clashing t) w.templates)) [
    | inl e ↦ rw (l, e) (rejected _ w refl (λ u h. cc))
    | inr c ↦ rw (l, c) (inserted t _ _ l c refl (λ u h. ground arith))
  ]
]

unread_template-Inserts :
    (m : String) {w : World} (s : Result Template × World)
    → Inserts w s
    → Inserts w (unread_template m s)
unfolding unread_template
unread_template-Inserts m (ok t, v) (rejected r v' same failed) = rejected _ v same (λ u h. cc)
unread_template-Inserts m (ok t, v) (inserted t' r v' l c e h) = inserted t' _ v l c e (λ u g. cc)
unread_template-Inserts m (err x, v) h = h

create_after-Inserts :
    (env : Env) (t : Template) (v : Verdict) (w : World) → Inserts w (create_after env t (v, w))
unfolding create_after
create_after-Inserts env t (refused m) w = rejected _ w refl (λ u h. cc)
create_after-Inserts env t answered w = insert_template-Inserts env (stamped w.now t) w
create_after-Inserts env t (unread m) w =
    unread_template-Inserts m (insert_template env (stamped w.now t) w)
      (insert_template-Inserts env (stamped w.now t) w)

Inserts-same :
    {w v : World} {s : Result Template × World}
    → v.templates ≡ w.templates
    → Inserts v s
    → Inserts w s
Inserts-same e (rejected r v' same failed) = rejected r v' (same ∙ e) failed
Inserts-same e (inserted t r v' l c g h) =
    inserted t r v' l (ap (any (clashing t)) (sym e) ∙ c) (g ∙ ap (λ ts. ts ++ t ∷ []) e) h

create-Inserts : (env : Env) (t : Template) (w : World) → Inserts w (create env t w)
unfolding create call draw_uuid
create-Inserts env t w =
    let p : ℕ × World = (if t.id == 0 then draw_uuid env w else (t.id, w)) in
    let same : (call env p.1).1.templates ≡ w.templates = ground arith in
    Inserts-same {v = (call env p.1).1} same
      (create_after-Inserts env (record t { id = p.0 }) (call env p.1).0 (call env p.1).1)

Inserts-IsCatalogue :
    {w : World} {s : Result Template × World}
    → Inserts w s
    → IsCatalogue w.templates
    → IsCatalogue s.1.templates
Inserts-IsCatalogue (rejected r v same failed) k = rw same k
Inserts-IsCatalogue {w} (inserted t r v l c e h) k = rw e (append-IsCatalogue t w.templates l c k)

Inserts-find :
    {w : World} {s : Result Template × World} {u : Template}
    → Inserts w s
    → s.0 ≡ ok u
    → find (has_template_id u.id) s.1.templates ≡ some u
Inserts-find {w} {s} {u} (rejected r v same failed) h = absurd (failed u h)
Inserts-find {w} {s} {u} (inserted t r v l c e g) h =
    rw (sym (g u h), e) (find-append t w.templates c)

-- Whatever its call answers, `Create` keeps the templates so.
pub create-IsCatalogue :
    (env : Env) (t : Template) (w : World)
    → IsCatalogue w.templates
    → IsCatalogue (create env t w).1.templates
create-IsCatalogue env t w k = Inserts-IsCatalogue (create-Inserts env t w) k

-- From templates that meet the constraints and of which no two share an id or a name, a `Create` that
-- returns a template leads to such again, and `GetByID` reads what it returned, provided that this
-- call goes through.
pub create_template-get_by_id :
    (env : Env) (t u : Template) (w : World)
    → IsCatalogue w.templates
    → (create env t w).0 ≡ ok u
    → (env.answer (create env t w).1.calls).verdict ≡ answered
    → IsCatalogue (create env t w).1.templates × ((get_by_id env u.id (create env t w).1).0 ≡ ok u)
unfolding get_by_id query call
create_template-get_by_id env t u w k h a =
    let found = Inserts-find (create-Inserts env t w) h in
    (create-IsCatalogue env t w k, rw (a, found) refl)
