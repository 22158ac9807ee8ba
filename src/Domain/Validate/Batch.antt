-- ===== src/Domain/Validate/Batch.antt =====
-- Which batches `Validate` accepts.
use notification_system.Base.{
  length, All, suc, ap, ℕ, ◌≤◌, List, [], ◌∷◌, none, ◌≡◌, refl, ◌↔◌, arith,
}
use notification_system.Domain.Errors.{FieldError}
use notification_system.Domain.Notification.{CreateNotificationRequest, BatchCreateRequest}
use notification_system.Domain.Validate.{
  error_of, validate, item_errors, validate_items, validate_batch,
}
use notification_system.Domain.Validate.Acceptance.{
  error_of_iff, field_errors_iff, append-eq-nil, IsAcceptable,
}

length-validate_items :
    (i : ℕ) (rs : List CreateNotificationRequest) → length (validate_items i rs).0 ≡ length rs
unfolding validate_items
length-validate_items i [] = refl
length-validate_items i (r ∷ rs) = ap suc (length-validate_items (suc i) rs)

item_errors_iff : (i : ℕ) (es : List FieldError) → (item_errors i (error_of es) ≡ []) ↔ (es ≡ [])
unfolding item_errors
item_errors_iff i [] = ground arith
item_errors_iff i (e ∷ es) = ground arith

validate_items_iff :
    (i : ℕ) (rs : List CreateNotificationRequest)
    → ((validate_items i rs).1 ≡ []) ↔ All IsAcceptable rs
unfolding validate_items validate
validate_items_iff i [] = (λ _. tt, λ _. refl)
validate_items_iff i (r ∷ rs) = (
  λ e.
      let (here, later) = (append-eq-nil _ _).0 e in
      (
        (field_errors_iff r).0 ((item_errors_iff i _).0 here),
        (validate_items_iff (suc i) rs).0 later,
      ),
  λ a.
      (append-eq-nil _ _).1 (
        (item_errors_iff i _).1 ((field_errors_iff r).1 a.0),
        (validate_items_iff (suc i) rs).1 a.1,
      ),
)

-- `Validate` of a batch returns no error exactly when the batch has between 1 and 1000 items, each
-- of which is acceptable.
pub validate_batch_iff :
    (b : BatchCreateRequest)
    → ((validate_batch b).1 ≡ none) ↔ (
        (1 ≤ length b.notifications)
        × (length b.notifications ≤ 1000)
        × All IsAcceptable b.notifications)
unfolding validate_batch
validate_batch_iff b =
    ground (
      arith,
      validate_items_iff 0 b.notifications,
      error_of_iff (validate_items 0 b.notifications).1,
    )
