-- ===== src/Repository/Templates/Columns.antt =====
-- internal/repository/postgres/template.go, `scanTemplate`: the columns of a template, and what is
-- made of them.
use notification_system.Base.{ℕ, String, ◌≡◌, refl}
use notification_system.Domain.Errors.{Result, ok, err}
use notification_system.Domain.Template.{Template}
use notification_system.Repository.Rows.{Null, pointer, column, pointer-column}

pub record TemplateColumns : Type 0 where
  pub id : ℕ
  pub name : String
  pub channel : String
  pub content : String
  pub subject : Null String
  pub created_at : ℕ
  pub updated_at : ℕ

-- `Scan` fails or fills the columns.
unfoldable pub scan_template : Result TemplateColumns → Result Template
scan_template (err e) = err e
scan_template (ok c) = ok (record {
  id = c.id;
  name = c.name;
  channel = c.channel;
  content = c.content;
  subject = pointer c.subject;
  created_at = c.created_at;
  updated_at = c.updated_at;
})

-- What the driver hands over of a stored template.
abbrev pub template_columns : Template → TemplateColumns
template_columns t = record {
  id = t.id;
  name = t.name;
  channel = t.channel;
  content = t.content;
  subject = column "" t.subject;
  created_at = t.created_at;
  updated_at = t.updated_at;
}

-- A stored template is scanned as it is, with NULL as nil and an empty subject as itself.
pub scan_template-template_columns : (t : Template) → scan_template (ok (template_columns t)) ≡ ok t
unfolding scan_template
scan_template-template_columns t = rw (pointer-column "" t.subject) refl
