-- ===== src/Domain/Template.antt =====
-- internal/domain/template.go. A `range` over the variables visits the map's entries in an order
-- that Go leaves open: each of the two loops of `Render` is given its own list of the entries.
use text.Mathlib.Text.{starts_with}
use notification_system.Base.{
  ℕ, zero, suc, ◌-◌, String, count, List, [], ◌∷◌, ◌++◌, Option, none, some, str_eq, ◌<>◌,
  if◌then◌else◌,
}
use notification_system.Domain.Errors.{Error}
use notification_system.Domain.Validate.{report, check_channel, error_of}

pub record Template : Type 0 where
  pub id : ℕ
  pub name : String
  pub channel : String
  pub content : String
  pub subject : Option String
  pub created_at : ℕ
  pub updated_at : ℕ

-- `strings.ReplaceAll` for a text `old` that is not empty, from left to right; `skip` characters of
-- an occurrence are still to be passed over.
replace_from : ℕ → String → String → String → String
replace_from skip old new String.[] = ""
replace_from (suc skip) old new (String.◌∷◌ c s) = replace_from skip old new s
replace_from zero old new (String.◌∷◌ c s) =
    let found = starts_with (String.◌∷◌ c s) old in
    let rest = replace_from (if found then count old - 1 else 0) old new s in
    if found then new <> rest else String.◌∷◌ c rest

unfoldable pub replace_all : String → String → String → String
unfolding replace_from
replace_all s old new = replace_from 0 old new s

abbrev pub placeholder : String → String
placeholder key = "{{" <> key <> "}}"

unfoldable pub substitute : List (String × String) → String → String
unfolding replace_all
substitute [] s = s
substitute ((key, value) ∷ variables) s =
    substitute variables (replace_all s (placeholder key) value)

unfoldable pub render :
    Template → List (String × String) → List (String × String) → String × Option String
unfolding substitute
render t for_content for_subject = (
  substitute for_content t.content,
  elim t.subject [ none ↦ none | some s ↦ some (substitute for_subject s) ],
)

pub record CreateTemplateRequest : Type 0 where
  pub name : String
  pub channel : String
  pub content : String
  pub subject : Option String

unfoldable pub validate_template : CreateTemplateRequest → Option Error
validate_template r = error_of (
    report (str_eq r.name "") "name" "is required"
    ++ (check_channel r.channel ++ report (str_eq r.content "") "content" "is required"))
