-- ===== src/Service/Templated.antt =====
-- A notification that is created from a template.
use mathlib.Core.List.{Perm}
use notification_system.Base.{
  ℕ, ◌+◌, ◌*◌, List, [], ◌∷◌, ◌<>◌, subst, ◌==◌, String, Option, none, some, ◌≡◌, refl, sym, ap,
  ◌∙◌, arith, find,
}
use notification_system.Domain.Errors.{ok, Error}
use notification_system.Domain.Notification.{Notification, CreateNotificationRequest}
use notification_system.Domain.Template.{Template, render, substitute, replace_all}
use notification_system.Domain.Validate.{validate}
use notification_system.World.{Env, World, Action, bind, call, draw_uuid}
use notification_system.Repository.Sql.{query, update}
use notification_system.Repository.Notifications
use notification_system.Repository.Notifications.{update_status}
use notification_system.Repository.Templates
use notification_system.Repository.Batches.Frames.{bind-eq-ok}
use notification_system.Queue.Producer.{publish}
use notification_system.Service.{
  notification_of, apply_template, filled, resolve_template, enqueue, enqueued, create_valid,
  create,
}

-- The text with "{{key}}" replaced by the value, for each variable in turn.
unfoldable pub replaced : List (String × String) → String → String
replaced [] s = s
replaced ((key, value) ∷ variables) s =
    replaced variables (replace_all s ("{{" <> (key <> "}}")) value)

substitute-replaced :
    (variables : List (String × String)) (s : String)
    → substitute variables s ≡ replaced variables s
unfolding substitute replaced
substitute-replaced [] s = refl
substitute-replaced ((key, value) ∷ variables) s = substitute-replaced variables _

-- The text is `s` with the variables' values for their placeholders, in some order.
abbrev pub IsInstance : List (String × String) → String → String → Type 0
IsInstance variables s text =
    (order : List (String × String)) × Perm order variables × (text ≡ replaced order s)

-- So is a subject; without one in the template, it is the request's own.
unfoldable pub IsSubject :
    List (String × String) → Option String → Option String → Option String → Type 0
IsSubject variables none own subject = subject ≡ own
IsSubject variables (some s) own subject =
    (text : String) × (subject ≡ some text) × IsInstance variables s text

-- The subject that a rendering gives, or the request's if the template has none.
abbrev or_own : Option String → Option String → Option String
or_own none own = own
or_own (some s) own = some s

-- What the variables are replaced by, each loop in its order.
abbrev rendering : Env → CreateNotificationRequest → Template → World → String × Option String
rendering env r t w =
    let c = (call env w).1.calls in
    render t (env.range (2 * c) r.variables) (env.range (2 * c + 1) r.variables)

filled-content :
    (r : CreateNotificationRequest) (s : String × Option String)
    → ((filled r s).content ≡ s.0) × ((filled r s).subject ≡ or_own s.1 r.subject)
unfolding filled
filled-content r (content, none) = (refl, refl)
filled-content r (content, some s) = (refl, refl)

resolved_found :
    (env : Env) (r : CreateNotificationRequest) (w : World) (id : ℕ) (t : Template)
    {r' : CreateNotificationRequest}
    → r.template_id ≡ some id
    → find (λ u. u.id == id) w.templates ≡ some t
    → (resolve_template env r w).0 ≡ ok r'
    → filled r (rendering env r t w) ≡ r'
unfolding resolve_template apply_template Templates.get_by_id query call
resolved_found env r w id t e found h = ground arith

stored-content :
    (env : Env) (r : CreateNotificationRequest) (w : World) {n : Notification}
    → (Notifications.create env (notification_of none r) w).0 ≡ ok n
    → (n.content ≡ r.content) × (n.subject ≡ r.subject)
unfolding Notifications.create call draw_uuid notification_of
stored-content env r w h = ground arith

enqueue-content :
    (env : Env) (n : Notification) (w : World)
    → ((enqueue env n w).0.content ≡ n.content) × ((enqueue env n w).0.subject ≡ n.subject)
unfolding enqueue publish update_status update call
enqueue-content env n w = ground arith

enqueued-content :
    (env : Env) (n : Notification) (w : World) {m : Notification}
    → (enqueued env n w).0 ≡ ok m
    → (m.content ≡ n.content) × (m.subject ≡ n.subject)
unfolding enqueued
enqueued-content env n w {m} h =
    let same : (enqueue env n w).0 ≡ m = ground arith in
    let (content, subject) = enqueue-content env n w in
    (ap (λ k. k.content) (sym same) ∙ content, ap (λ k. k.subject) (sym same) ∙ subject)

create_valid_rendered :
    (env : Env) (r : CreateNotificationRequest) (o : Option Error) (w : World) (id : ℕ)
    (t : Template) (n : Notification)
    → r.template_id ≡ some id
    → find (λ u. u.id == id) w.templates ≡ some t
    → (create_valid env r o w).0 ≡ ok n
    → (n.content ≡ (rendering env r t w).0) × (n.subject ≡ or_own (rendering env r t w).1 r.subject)
unfolding create_valid
create_valid_rendered env r (some e) w id t n given found h = cc
create_valid_rendered env r none w id t n given found h =
    let resolved = resolve_template env r w in
    let store : CreateNotificationRequest → Action Notification =
      λ r'. Notifications.create env (notification_of none r') in
    let (m, stored', on) = bind-eq-ok (bind resolved store) (enqueued env) h in
    let (r', got, on') = bind-eq-ok resolved store stored' in
    let (content, subject) =
      enqueued-content env m (bind resolved store).1 (ap (λ s. s.0) (sym on) ∙ h) in
    let (content', subject') =
      stored-content env r' resolved.1 (ap (λ s. s.0) (sym on') ∙ stored') in
    let same = resolved_found env r w id t given found got in
    let (content'', subject'') = filled-content r (rendering env r t w) in
    (
      content ∙ (content' ∙ (ap (λ k. k.content) (sym same) ∙ content'')),
      subject ∙ (subject' ∙ (ap (λ k. k.subject) (sym same) ∙ subject'')),
    )

rendered-IsSubject :
    (variables order : List (String × String)) (t : Option String) (own : Option String)
    → Perm order variables
    → IsSubject variables t own
        (or_own (elim t [ none ↦ none | some s ↦ some (substitute order s) ]) own)
unfolding IsSubject
rendered-IsSubject variables order none own p = refl
rendered-IsSubject variables order (some s) own p =
    (substitute order s, refl, (order, p, substitute-replaced order s))

-- A notification that `Create` makes of a request with a template, which the table has, bears the
-- template's content with "{{key}}" replaced by its value for each of the request's variables, one
-- after the other in some order, whatever content the request has; and the template's subject
-- likewise, or the request's own if the template has none. A `range` over a map visits each of its
-- entries once.
pub create_rendered :
    (env : Env) (r : CreateNotificationRequest) (w : World) (id : ℕ) (t : Template)
    (n : Notification)
    → ((k : ℕ) (variables : List (String × String)) → Perm (env.range k variables) variables)
    → (validate r).0.template_id ≡ some id
    → find (λ u. u.id == id) w.templates ≡ some t
    → (create env r w).0 ≡ ok n
    → IsInstance (validate r).0.variables t.content n.content
      × IsSubject (validate r).0.variables t.subject (validate r).0.subject n.subject
unfolding create render
create_rendered env r w id t n visits given found h =
    let (content, subject) =
      create_valid_rendered env (validate r).0 (validate r).1 w id t n given found h in
    let variables = (validate r).0.variables in
    let c = (call env w).1.calls in
    let first = env.range (2 * c) variables in
    let second = env.range (2 * c + 1) variables in
    (
      (first, visits (2 * c) variables, content ∙ substitute-replaced first t.content),
      subst (IsSubject variables t.subject (validate r).0.subject) (sym subject) (
          rendered-IsSubject variables second t.subject (validate r).0.subject
            (visits (2 * c + 1) variables)),
    )
