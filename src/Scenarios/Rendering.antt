-- ===== src/Scenarios/Rendering.antt =====
-- The theorems on templates, with one template in the table.
use mathlib.Core.List.Perm
use notification_system.Base.{[], ◌∷◌, some, none, ◌≡◌, refl}
use notification_system.Domain.Errors.{ok, err}
use notification_system.Domain.Notification.{
  Notification, CreateNotificationRequest, is_valid_channel, is_valid_priority,
}
use notification_system.Domain.Template.{Template, render, substitute, replace_all}
use notification_system.Domain.Validate.{check_channel, validate_content_length, validate}
use notification_system.World.{World, call, draw_uuid}
use notification_system.Repository.Sql.{query, is_legal, clashes, insert}
use notification_system.Repository.Notifications
use notification_system.Repository.Templates
use notification_system.Repository.Templates.{is_legal_template, clashing}
use notification_system.Repository.Templates.Catalogue.{IsCatalogue, create_template-get_by_id}
use notification_system.Queue.Producer.{publish}
use notification_system.Service.{
  create, create_valid, resolve_template, notification_of, enqueue, enqueued, is_future,
}
use notification_system.Service.Templated.{IsInstance, IsSubject, create_rendered}
use notification_system.Scenarios.{healthy, greeting, resting, pending}

abbrev welcome : Template
welcome = record {
  id = 3;
  name = "welcome";
  channel = "sms";
  content = "Hello {{name}}";
  subject = none;
  created_at = 10;
  updated_at = 10;
}

abbrev goodbye : Template
goodbye = record welcome { id = 0; name = "goodbye"; content = "Goodbye {{name}}" }

abbrev stocked : World
stocked = record resting { templates = welcome ∷ [] }

stocked-IsCatalogue : IsCatalogue stocked.templates
unfolding is_legal_template clashing is_valid_channel
stocked-IsCatalogue = (refl, refl, tt)

abbrev made : Template
made = elim (Templates.create healthy goodbye stocked).0 [ ok t ↦ t | err e ↦ welcome ]

made_ok : (Templates.create healthy goodbye stocked).0 ≡ ok made
unfolding Templates.create is_legal_template clashing is_valid_channel draw_uuid call
made_ok = refl

create_template-get_by_id_example :
    IsCatalogue (Templates.create healthy goodbye stocked).1.templates
    × ((Templates.get_by_id healthy made.id (Templates.create healthy goodbye stocked).1).0
        ≡ ok made)
create_template-get_by_id_example =
    create_template-get_by_id healthy goodbye made stocked stocked-IsCatalogue made_ok refl

abbrev templated : CreateNotificationRequest
templated = record greeting { content = ""; template_id = some 3; variables = ("name", "Ada") ∷ [] }

abbrev sent : Notification
sent = elim (create healthy templated stocked).0 [ ok n ↦ n | err e ↦ pending 0 ]

sent_ok : (create healthy templated stocked).0 ≡ ok sent
unfolding create create_valid resolve_template notification_of enqueue enqueued is_future publish
    validate check_channel is_valid_channel validate_content_length Notifications.create call query
    draw_uuid insert is_legal is_valid_priority clashes Templates.get_by_id render substitute
    replace_all
sent_ok = refl

given : (validate templated).0.template_id ≡ some 3
unfolding validate check_channel is_valid_channel validate_content_length
given = refl

create_rendered_example :
    IsInstance (validate templated).0.variables welcome.content sent.content
    × IsSubject
        (validate templated).0.variables
        welcome.subject
        (validate templated).0.subject
        sent.subject
create_rendered_example =
    create_rendered healthy templated stocked 3 welcome sent (λ k vs. Perm.refl vs) given refl
      sent_ok
