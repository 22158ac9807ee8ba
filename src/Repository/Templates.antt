-- ===== src/Repository/Templates.antt =====
-- internal/repository/postgres/template.go.
pub mod Catalogue
pub mod Columns
use notification_system.Base.{
  ℕ, String, List, [], ◌∷◌, ◌++◌, Option, none, some, Bool, not, ◌&&◌, ◌||◌, ◌==◌, leb, str_eq,
  ◌<>◌, any, find, take, if◌then◌else◌,
}
use notification_system.Domain.Errors.{Result, ok, err, err_not_found, err_conflict, wrapped}
use notification_system.Domain.Notification.{is_valid_channel}
use notification_system.Domain.Template.{Template}
use notification_system.World.{
  Env, World, Verdict, answered, refused, unread, Action, ◌>>=◌, call, draw_uuid,
}
use notification_system.Repository.Sql.{fits_varchar, query}
use notification_system.Repository.Sql.Sorting.{sort}

-- chk_template_channel and the columns' lengths.
unfoldable pub is_legal_template : Template → Bool
is_legal_template t =
    is_valid_channel t.channel && (fits_varchar (some t.name) && fits_varchar t.subject)

unfoldable pub clashing : Template → Template → Bool
clashing t u = u.id == t.id || str_eq u.name t.name

insert_template : Env → Template → World → Result Template × World
insert_template env t w =
    if not (is_legal_template t)
    then (err (wrapped ("creating template: " <> env.violation)), w)
    else if any (clashing t) w.templates
    then (err (err_conflict "template with this name already exists"), w)
    else (ok t, record w { templates = w.templates ++ t ∷ [] })

unread_template : String → Result Template × World → Result Template × World
unread_template m (ok t, w) = (err (wrapped ("creating template: " <> m)), w)
unread_template m (err e, w) = (err e, w)

abbrev stamped : ℕ → Template → Template
stamped now t = record t { created_at = now; updated_at = now }

create_after : Env → Template → Verdict × World → Result Template × World
create_after env t (refused m, w) = (err (wrapped ("creating template: " <> m)), w)
create_after env t (answered, w) = insert_template env (stamped w.now t) w
create_after env t (unread m, w) = unread_template m (insert_template env (stamped w.now t) w)

unfoldable pub create : Env → Template → Action Template
unfolding create_after insert_template unread_template is_legal_template clashing
create env t w =
    let (id, w') = (if t.id == 0 then draw_uuid env w else (t.id, w)) in
    create_after env (record t { id = id }) (call env w')

template_or_not_found : Env → ℕ → Option Template → Action Template
template_or_not_found env id none w = (err (err_not_found "template" (env.uuid_string id)), w)
template_or_not_found env id (some t) w = (ok t, w)

unfoldable pub get_by_id : Env → ℕ → Action Template
unfolding template_or_not_found
get_by_id env id =
    query env "getting template" "getting template" (λ w. find (λ t. t.id == id) w.templates)
    >>= template_or_not_found env id

-- A limit that is not positive is 0 here, and means 50. The source leaves `rows.Err` unread.
unfoldable pub list : Env → ℕ → Action (List Template)
list env limit = query env "listing templates" "scanning template" (λ w.
    take (if limit == 0 then 50 else limit)
      (sort (λ t u. leb u.created_at t.created_at) w.templates))
