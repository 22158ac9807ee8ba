-- ===== src/Domain/Errors.antt =====
-- internal/domain/errors.go. Each Go error type is a constructor; `wrapped` is any other error, the
-- text that `fmt.Errorf` gives it.
use notification_system.Base.{String, List, Bool, true, false, map, ◌<>◌, join}

pub record FieldError : Type 0 where
  pub field : String
  pub message : String

pub data Error : Type 0 where
  err_not_found : String → String → Error
  err_conflict : String → Error
  err_validation : List FieldError → Error
  wrapped : String → Error

field_error_text : FieldError → String
field_error_text f = f.field <> ": " <> f.message

-- The method `Error` of each type.
unfoldable pub error_text : Error → String
unfolding field_error_text join
error_text (err_not_found entity id) = entity <> " not found: " <> id
error_text (err_conflict message) = message
error_text (err_validation fields) =
    "validation failed: " <> join (map field_error_text fields) "; "
error_text (wrapped text) = text

pub data Result {ℓ} (A : Type ℓ) : Type ℓ where
  ok : A → Result A
  err : Error → Result A

-- Whether there is no error.
unfoldable pub is_ok {ℓ} : {A : Type ℓ} → Result A → Bool
is_ok (ok a) = true
is_ok (err e) = false
