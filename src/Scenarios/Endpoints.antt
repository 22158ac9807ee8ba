-- ===== src/Scenarios/Endpoints.antt =====
-- The theorems on the API, at concrete inputs.
use notification_system.Base.{some, ◌≡◌, ◌↔◌, refl}
use notification_system.Base.Int.{pos}
use notification_system.Domain.Notification.{is_valid_channel}
use notification_system.Domain.Validate.{check_channel, validate_content_length, validate}
use notification_system.Api.Handlers.{create}
use notification_system.Api.Handlers.Rejections.{IsShed, create-429_iff}
use notification_system.Domain.Errors.{wrapped, err}
use notification_system.World.{call, draw_uuid}
use notification_system.Repository.Notifications
use notification_system.Service
use notification_system.Service.Failures.{create-err_unpublished}
use notification_system.Scenarios.{down, greeting, healthy, resting}

create-429_iff_example :
    ((create healthy (pos 8500) (some greeting) resting).0.status ≡ 429)
    ↔ IsShed (pos 8500) (some greeting)
create-429_iff_example = create-429_iff healthy (pos 8500) (some greeting) resting

create_fails :
    (Service.create down greeting resting).0
    ≡ err (wrapped "creating notification: connection refused")
unfolding Service.create Service.create_valid Service.resolve_template Service.notification_of
    validate check_channel is_valid_channel validate_content_length Notifications.create call
    draw_uuid
create_fails = refl

create-err_unpublished_example : (Service.create down greeting resting).1.queue ≡ resting.queue
create-err_unpublished_example =
    create-err_unpublished down greeting resting
      (wrapped "creating notification: connection refused") create_fails
