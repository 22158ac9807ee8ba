-- ===== src/Api/Responses.antt =====
-- internal/api/handler/response.go. A response is its status code, the headers that the handler
-- adds to the content type, and what its body encodes.
use notification_system.Base.{ℕ, String, List, []}
use notification_system.Domain.Errors.{
  FieldError, Error, err_not_found, err_conflict, err_validation, wrapped, error_text, Result, ok,
  err,
}
use notification_system.Domain.Notification.{Notification}
use notification_system.Domain.Template.{Template}
use notification_system.Repository.Listing.{ListResult}

pub record BatchResponse : Type 0 where
  pub batch_id : ℕ
  pub notifications : List Notification
  pub count : ℕ

pub record HealthResponse : Type 0 where
  pub status : String
  pub checks : List (String × String)

pub data Payload : Type 0 where
  error_response : String → List FieldError → Payload
  notification : Notification → Payload
  batch : BatchResponse → Payload
  listing : ListResult → Payload
  template : Template → Payload
  template_list : List Template → Payload
  health : HealthResponse → Payload

pub record Response : Type 0 where
  pub status : ℕ
  pub headers : List (String × String)
  pub payload : Payload

unfoldable pub respond_json : ℕ → Payload → Response
respond_json status payload = record { status = status; headers = []; payload = payload }

unfoldable pub respond_error : Error → Response
unfolding respond_json
respond_error (err_validation fields) = respond_json 400 (error_response "validation failed" fields)
respond_error (err_not_found entity id) =
    respond_json 404 (error_response (error_text (err_not_found entity id)) [])
respond_error (err_conflict message) =
    respond_json 409 (error_response (error_text (err_conflict message)) [])
respond_error (wrapped text) = respond_json 500 (error_response "internal server error" [])

-- A result of the service or of a repository as a response.
unfoldable pub respond {ℓ} : {A : Type ℓ} → ℕ → (A → Payload) → Result A → Response
unfolding respond_json
respond status payload (ok a) = respond_json status (payload a)
respond status payload (err e) = respond_error e

unfoldable pub bad_request : String → Response
unfolding respond_json
bad_request text = respond_json 400 (error_response text [])
