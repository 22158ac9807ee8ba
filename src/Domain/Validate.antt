-- ===== src/Domain/Validate.antt =====
-- internal/domain/notification.go: `Validate` of a request and of a batch. The pointer receiver's
-- change of `Priority` is the first part of the result, the returned error the second.
pub mod Acceptance
pub mod Batch
use notification_system.Base.{
  ℕ, suc, String, len, List, [], ◌∷◌, ◌++◌, map, Option, none, some, Bool, true, false, not, ◌&&◌,
  ◌||◌, ltb, ◌==◌, if◌then◌else◌, str_eq, ◌<>◌, decimal, length,
}
use notification_system.Domain.Errors.{FieldError, Error, err_validation}
use notification_system.Domain.Notification.{
  CreateNotificationRequest, BatchCreateRequest, channel_sms, channel_email, channel_push,
  priority_normal, max_sms_content_length, max_email_content_length, max_push_content_length,
  max_batch_size, is_valid_channel, is_valid_priority,
}

-- `append(errs, FieldError{field, message})` under a condition.
abbrev pub report : Bool → String → String → List FieldError
report true field message = record { field = field; message = message } ∷ []
report false field message = []

abbrev pub too_long : ℕ → String → String → String
too_long limit content name =
    if ltb limit (len content)
    then "must be at most " <> decimal limit <> " characters for " <> name
    else ""

-- The empty text is "no error". `len` counts the bytes of the UTF-8, as Go's does.
unfoldable pub validate_content_length : String → String → String
unfolding decimal
validate_content_length channel content =
    if str_eq channel channel_sms
    then too_long max_sms_content_length content "SMS"
    else if str_eq channel channel_email
    then too_long max_email_content_length content "email"
    else if str_eq channel channel_push
    then too_long max_push_content_length content "push"
    else ""

check_recipient : CreateNotificationRequest → List FieldError
check_recipient r = report (str_eq r.recipient "") "recipient" "is required"

-- Also the check of `CreateTemplateRequest`.
unfoldable pub check_channel : String → List FieldError
check_channel channel =
    if str_eq channel ""
    then report true "channel" "is required"
    else report (not (is_valid_channel channel)) "channel" "must be one of: sms, email, push"

abbrev pub is_nil {ℓ} : {A : Type ℓ} → Option A → Bool
is_nil none = true
is_nil (some a) = false

-- `p == nil || *p == ""`
abbrev pub is_blank : Option String → Bool
is_blank none = true
is_blank (some s) = str_eq s ""

check_content : CreateNotificationRequest → List FieldError
check_content r =
    if str_eq r.content "" && is_nil r.template_id
    then report true "content" "is required (or provide template_id)"
    else if not (str_eq r.content "") && (not (str_eq r.channel "") && is_valid_channel r.channel)
    then report (not (str_eq problem "")) "content" problem
    else []
  where
    problem : String
    problem = validate_content_length r.channel r.content

check_subject : CreateNotificationRequest → List FieldError
check_subject r =
    report (str_eq r.channel channel_email && is_blank r.subject) "subject"
      "is required for email channel"

check_priority : CreateNotificationRequest → List FieldError
check_priority r =
    if str_eq r.priority ""
    then []
    else report (not (is_valid_priority r.priority)) "priority" "must be one of: high, normal, low"

default_priority : CreateNotificationRequest → CreateNotificationRequest
default_priority r = if str_eq r.priority "" then record r { priority = priority_normal } else r

abbrev pub error_of : List FieldError → Option Error
error_of [] = none
error_of (e ∷ es) = some (err_validation (e ∷ es))

pub field_errors : CreateNotificationRequest → List FieldError
field_errors r =
    check_recipient r
    ++ (check_channel r.channel ++ (check_content r ++ (check_subject r ++ check_priority r)))

unfoldable pub validate : CreateNotificationRequest → CreateNotificationRequest × Option Error
unfolding default_priority field_errors check_recipient check_content check_subject check_priority
validate r = (default_priority r, error_of (field_errors r))

-- The fields that a failed item adds to the batch's, under the item's index.
unfoldable pub item_errors : ℕ → Option Error → List FieldError
item_errors i (some (err_validation fields)) =
    map
      (λ fe. record {
        field = "notifications[" <> decimal i <> "]." <> fe.field;
        message = fe.message;
      })
      fields
item_errors i _ = []

-- The loop over the items, from index `i`.
validate_items :
    ℕ → List CreateNotificationRequest → List CreateNotificationRequest × List FieldError
validate_items i [] = ([], [])
validate_items i (r ∷ rs) =
    let (r', e) = validate r in
    let (rs', es) = validate_items (suc i) rs in (r' ∷ rs', item_errors i e ++ es)

unfoldable pub validate_batch : BatchCreateRequest → BatchCreateRequest × Option Error
unfolding validate_items
validate_batch b =
    if length b.notifications == 0
    then (b, error_of (report true "notifications" "must not be empty"))
    else if ltb max_batch_size (length b.notifications)
    then (
      b,
      error_of (
          report true "notifications" ("must have at most " <> decimal max_batch_size <> " items")),
    )
    else let (rs, es) = validate_items 0 b.notifications in
      (record { notifications = rs }, error_of es)
