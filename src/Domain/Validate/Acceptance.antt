-- ===== src/Domain/Validate/Acceptance.antt =====
-- What `Validate` accepts, as a predicate on the request.
use text.Mathlib.TextLemmas.{append-eq-nil_iff}
use mathlib.Core.Path.{ap₂}
use notification_system.Base.{
  str_eq, Bool-cases, inl, inr, ltb, ltb→lt, sym, ℕ, ◌≤◌, String, len, List, [], ◌∷◌, ◌++◌, Option,
  none, some, true, ◌≡◌, refl, ◌≢◌, ◌⊎◌, ◌↔◌, arith, eq_iff, str_eq,
}
use notification_system.Domain.Errors.{FieldError}
use notification_system.Domain.Notification.{
  CreateNotificationRequest, max_sms_content_length, max_email_content_length,
  max_push_content_length, channel_sms, channel_email, channel_push, is_valid_channel,
  is_valid_priority, priority_high, priority_normal, priority_low,
}
use notification_system.Domain.Validate.{
  too_long, validate_content_length, check_recipient, check_channel, check_content, check_subject,
  check_priority, default_priority, error_of, field_errors, validate, is_blank,
}

check_recipient_iff :
    (r : CreateNotificationRequest) → (check_recipient r ≡ []) ↔ (r.recipient ≢ "")
unfolding check_recipient
check_recipient_iff r = ground (arith, eq_iff r.recipient "")

abbrev pub IsChannel : String → Type 0
IsChannel c = (c ≡ channel_sms) ⊎ ((c ≡ channel_email) ⊎ (c ≡ channel_push))

pub is_valid_channel_iff : (c : String) → (is_valid_channel c ≡ true) ↔ IsChannel c
unfolding is_valid_channel
is_valid_channel_iff c =
    ground (arith, eq_iff c channel_sms, eq_iff c channel_email, eq_iff c channel_push)

not-channel_empty : IsChannel "" → ⊥
not-channel_empty h =
    ground (arith, eq_iff "" channel_sms, eq_iff "" channel_email, eq_iff "" channel_push)

-- The limit of the channel, in bytes.
abbrev pub IsShort : String → String → Type 0
IsShort channel content =
    (channel ≡ channel_sms → len content ≤ 160)
    × (channel ≡ channel_email → len content ≤ 100000)
    × (channel ≡ channel_push → len content ≤ 4096)

prefix-ne-empty : ◌≢◌ {A = String} "must be at most " ""
prefix-ne-empty e = cc (sym ((eq_iff "must be at most " "").1 e))

check_channel_iff : (c : String) → (check_channel c ≡ []) ↔ IsChannel c
unfolding check_channel
check_channel_iff c = ground (arith, eq_iff c "", is_valid_channel_iff c, not-channel_empty)

too_long-eq-empty_iff :
    (limit : ℕ) (content name : String) → (too_long limit content name ≡ "") ↔ (len content ≤ limit)
too_long-eq-empty_iff limit content name = elim (Bool-cases (ltb limit (len content))) [
  | inl over ↦ rw over (
    λ e. absurd (prefix-ne-empty (append-eq-nil_iff.0 e).0),
    λ h. absurd (omega (arith, ltb→lt _ _ over)),
  )
  | inr under ↦ rw under (λ e. ground arith, λ h. refl)
]

channels_distinct :
    (channel_sms ≢ channel_email) × (channel_sms ≢ channel_push) × (channel_email ≢ channel_push)
channels_distinct = (
  λ e. cc (sym ((eq_iff channel_sms channel_email).1 e)),
  λ e. cc (sym ((eq_iff channel_sms channel_push).1 e)),
  λ e. cc (sym ((eq_iff channel_email channel_push).1 e)),
)

validate_content_length_iff :
    (channel content : String)
    → IsChannel channel
    → (validate_content_length channel content ≡ "") ↔ IsShort channel content
unfolding validate_content_length
validate_content_length_iff channel content c = ground (
  arith,
  channels_distinct,
  eq_iff channel channel_sms,
  eq_iff channel channel_email,
  eq_iff channel channel_push,
  too_long-eq-empty_iff max_sms_content_length content "SMS",
  too_long-eq-empty_iff max_email_content_length content "email",
  too_long-eq-empty_iff max_push_content_length content "push",
)

check_content_iff :
    (r : CreateNotificationRequest)
    → IsChannel r.channel
    → (check_content r ≡ []) ↔ (
        ((r.content ≢ "") ⊎ (r.template_id ≢ none))
        × (r.content ≢ "" → IsShort r.channel r.content))
unfolding check_content
check_content_iff r c = ground (
  arith,
  eq_iff r.content "",
  eq_iff r.channel "",
  not-channel_empty,
  is_valid_channel_iff r.channel,
  validate_content_length_iff r.channel r.content,
  eq_iff (validate_content_length r.channel r.content) "",
)

is_blank_iff : (o : Option String) → (is_blank o ≡ true) ↔ ((o ≡ none) ⊎ (o ≡ some ""))
is_blank_iff none = ground arith
is_blank_iff (some s) = ground (arith, eq_iff s "")

check_subject_iff :
    (r : CreateNotificationRequest)
    → (check_subject r ≡ [])
      ↔ (r.channel ≡ channel_email → (r.subject ≢ none) × (r.subject ≢ some ""))
unfolding check_subject
check_subject_iff r = ground (arith, eq_iff r.channel channel_email, is_blank_iff r.subject)

check_priority_iff :
    (r : CreateNotificationRequest)
    → (check_priority r ≡ []) ↔ (
        (r.priority ≡ "")
        ⊎ ((r.priority ≡ "high") ⊎ ((r.priority ≡ "normal") ⊎ (r.priority ≡ "low"))))
unfolding check_priority is_valid_priority
check_priority_iff r = ground (
  arith,
  eq_iff r.priority "",
  eq_iff r.priority priority_high,
  eq_iff r.priority priority_normal,
  eq_iff r.priority priority_low,
)

pub append-eq-nil : (xs ys : List FieldError) → (xs ++ ys ≡ []) ↔ ((xs ≡ []) × (ys ≡ []))
append-eq-nil [] ys = ground arith
append-eq-nil (x ∷ xs) ys = ground arith

-- What a client must send: a recipient, a channel of the three, content within the channel's limit
-- in bytes or a template, a subject for email, and one of the priorities or none.
pub record IsAcceptable (r : CreateNotificationRequest) : Type 0 where
  pub addressed : r.recipient ≢ ""
  pub routed : IsChannel r.channel
  pub filled : (r.content ≢ "") ⊎ (r.template_id ≢ none)
  pub short : r.content ≢ "" → IsShort r.channel r.content
  pub titled : r.channel ≡ channel_email → (r.subject ≢ none) × (r.subject ≢ some "")
  pub ranked :
      (r.priority ≡ "") ⊎ ((r.priority ≡ "high") ⊎ ((r.priority ≡ "normal") ⊎ (r.priority ≡ "low")))

pub field_errors_iff : (r : CreateNotificationRequest) → (field_errors r ≡ []) ↔ IsAcceptable r
unfolding field_errors
field_errors_iff r = (
  λ e.
      let (e1, rest1) = (append-eq-nil _ _).0 e in
      let (e2, rest2) = (append-eq-nil _ _).0 rest1 in
      let (e3, rest3) = (append-eq-nil _ _).0 rest2 in
      let (e4, e5) = (append-eq-nil _ _).0 rest3 in
      let routed = (check_channel_iff r.channel).0 e2 in
      let (filled, short) = (check_content_iff r routed).0 e3 in
      record {
        addressed = (check_recipient_iff r).0 e1;
        routed = routed;
        filled = filled;
        short = short;
        titled = (check_subject_iff r).0 e4;
        ranked = (check_priority_iff r).0 e5;
      },
  λ a. (append-eq-nil _ _).1 (
    (check_recipient_iff r).1 a.addressed,
    (append-eq-nil _ _).1 (
      (check_channel_iff r.channel).1 a.routed,
      (append-eq-nil _ _).1 (
        (check_content_iff r a.routed).1 (a.filled, a.short),
        (append-eq-nil _ _).1 ((check_subject_iff r).1 a.titled, (check_priority_iff r).1 a.ranked),
      ),
    ),
  ),
)

pub error_of_iff : (es : List FieldError) → (error_of es ≡ none) ↔ (es ≡ [])
error_of_iff [] = ground arith
error_of_iff (e ∷ es) = ground arith

-- `Validate` returns no error exactly when the request is acceptable: it has a recipient, one of
-- the three channels, a content or a template, no content longer in bytes than the channel's
-- maximum, a subject if it is an email, and a known priority or none.
pub validate_iff : (r : CreateNotificationRequest) → ((validate r).1 ≡ none) ↔ IsAcceptable r
unfolding validate
validate_iff r = (
  λ e. (field_errors_iff r).0 ((error_of_iff _).0 e),
  λ a. (error_of_iff _).1 ((field_errors_iff r).1 a),
)

default_priority-IsAcceptable :
    (r : CreateNotificationRequest) → IsAcceptable r → IsAcceptable (default_priority r)
unfolding default_priority
default_priority-IsAcceptable r a = ground arith

default_priority_idempotent :
    (r : CreateNotificationRequest) → default_priority (default_priority r) ≡ default_priority r
unfolding default_priority
default_priority_idempotent r = ground (arith, eq_iff priority_normal "")

default_priority_valid :
    (r : CreateNotificationRequest)
    → IsAcceptable r
    → is_valid_priority (default_priority r).priority ≡ true
unfolding default_priority is_valid_priority
default_priority_valid r a = elim (Bool-cases (str_eq r.priority "")) [
  | inl empty ↦ rw empty refl
  | inr given ↦ rw given (
      ground (
        arith,
        eq_iff r.priority "",
        eq_iff r.priority priority_high,
        eq_iff r.priority priority_normal,
        eq_iff r.priority priority_low,
      ))
]

-- A request that `Validate` accepts has one of the three priorities afterwards, and a second
-- `Validate` accepts it again and changes nothing.
pub validate_stable :
    (r : CreateNotificationRequest)
    → (validate r).1 ≡ none
    → (is_valid_priority (validate r).0.priority ≡ true)
      × (validate (validate r).0 ≡ ((validate r).0, none))
unfolding validate
validate_stable r e =
    let a = (validate_iff r).0 e in
    (
      default_priority_valid r a,
      ap₂ (λ x y. (x, y)) (default_priority_idempotent r)
          ((validate_iff (default_priority r)).1 (default_priority-IsAcceptable r a)),
    )
