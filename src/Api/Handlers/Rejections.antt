-- ===== src/Api/Handlers/Rejections.antt =====
-- Which requests are turned away, and that they leave no trace.
use notification_system.Base.{
  List, [], ◌∷◌, Option, none, some, true, ◌≡◌, ◌≢◌, refl, ◌⊎◌, inl, inr, arith, ◌↔◌, Bool-cases,
  length, ltb, ◌==◌, String, str_eq, eq_iff,
}
use notification_system.Base.Int.{ℤ, pos, ◌≤ℤ◌}
use notification_system.Domain.Errors.{
  FieldError, Error, err_validation, err_not_found, err_conflict, wrapped, Result, ok, err,
}
use notification_system.Domain.Notification.{
  CreateNotificationRequest, BatchCreateRequest, max_batch_size,
}
use notification_system.Domain.Validate.{error_of, validate, validate_batch}
use notification_system.World.{Env, World}
use notification_system.Service
use notification_system.Api.Backpressure.{check_backpressure}
use notification_system.Api.Responses.{Payload, notification, respond, respond_error, bad_request}
use notification_system.Api.Handlers.{
  responded, effective_priority, create, create_batch, batch_payload,
}

-- A priority is too low for a depth: "low" above 5000, "high" above 10000, and any other above 8000.
abbrev pub IsTooLow : ℤ → String → Type 0
IsTooLow depth p =
    ((p ≡ "low") × (pos 5001 ≤ℤ depth))
    ⊎ (((p ≡ "high") × (pos 10001 ≤ℤ depth)) ⊎ ((p ≢ "low") × (p ≢ "high") × (pos 8001 ≤ℤ depth)))

-- The request could be read, and the queue is too deep for its priority, "normal" if it has none.
unfoldable pub IsShed : ℤ → Option CreateNotificationRequest → Type 0
IsShed depth none = ⊥
IsShed depth (some r) =
    ((r.priority ≡ "") × IsTooLow depth "normal") ⊎ ((r.priority ≢ "") × IsTooLow depth r.priority)

-- The backpressure's test is the comparison with the limits.
check_backpressure-IsTooLow :
    (depth : ℤ) (p : String) → (check_backpressure depth p ≡ true) ↔ IsTooLow depth p
unfolding check_backpressure
check_backpressure-IsTooLow depth p = elim (Bool-cases (str_eq p "low")) [
  | inl low ↦ let is = (eq_iff p "low").0 low in (λ e. inl (is, ground arith), λ h. ground arith)
  | inr not_low ↦ elim (Bool-cases (str_eq p "high")) [
    | inl high ↦
        rw ((eq_iff p "high").0 high) (λ e. inr (inl (refl, ground arith)), λ h. ground arith)
    | inr not_high ↦ (
      λ e. inr (
          inr (
            (λ is. ground (arith, eq_iff p "low")),
            (λ is. ground (arith, eq_iff p "high")),
            ground (arith, eq_iff p "normal"),
          )),
      λ h. ground (arith, eq_iff p "normal", eq_iff p "low", eq_iff p "high"),
    )
  ]
]

respond-ne-429 {ℓ} :
    {A : Type ℓ} (payload : A → Payload) (r : Result A) → (respond 201 payload r).status ≢ 429
unfolding respond respond_error
respond-ne-429 payload (ok a) = λ e. absurd (omega (arith, e))
respond-ne-429 payload (err (err_validation fields)) = λ e. absurd (omega (arith, e))
respond-ne-429 payload (err (err_not_found entity id)) = λ e. absurd (omega (arith, e))
respond-ne-429 payload (err (err_conflict m)) = λ e. absurd (omega (arith, e))
respond-ne-429 payload (err (wrapped m)) = λ e. absurd (omega (arith, e))

-- A request is shed exactly when the backpressure says so for the priority that it is taken to have.
check_backpressure-IsShed :
    (depth : ℤ) (r : CreateNotificationRequest)
    → (check_backpressure depth (effective_priority r) ≡ true) ↔ IsShed depth (some r)
unfolding IsShed
check_backpressure-IsShed depth r = elim (Bool-cases (str_eq r.priority "")) [
  | inl absent ↦
      let (to, from) = check_backpressure-IsTooLow depth "normal" in
      let is = (eq_iff r.priority "").0 absent in
      rw absent (
        λ e. inl (is, to e),
        λ h. elim h [ inl low ↦ from low.1 | inr given ↦ absurd (given.0 is) ],
      )
  | inr given ↦
      let (to, from) = check_backpressure-IsTooLow depth r.priority in
      let not : r.priority ≢ "" = λ e. let s = (eq_iff r.priority "").1 e in cc in
      rw given (
        λ e. inr (not, to e),
        λ h. elim h [ inl absent ↦ absurd (not absent.0) | inr low ↦ from low.1 ],
      )
]

-- `Create` answers 429 exactly when the request could be read and the queue is too deep for its
-- priority: more than 5000 messages for "low", more than 10000 for "high", and more than 8000 for any
-- other priority or for none.
pub create-429_iff :
    (env : Env) (depth : ℤ) (body : Option CreateNotificationRequest) (w : World)
    → ((create env depth body w).0.status ≡ 429) ↔ IsShed depth body
unfolding create IsShed bad_request
create-429_iff env depth none w = (λ e. absurd (omega (arith, e)), λ s. absurd s)
create-429_iff env depth (some r) w =
    let (to, from) = check_backpressure-IsShed depth r in
    elim (Bool-cases (check_backpressure depth (effective_priority r))) [
      | inl shed ↦ rw shed (λ e. to shed, λ s. refl)
      | inr fine ↦ rw fine (
        λ e. absurd (respond-ne-429 notification (Service.create env r w).0 e),
        λ s. let e = from s in cc,
      )
    ]

-- No error, or one of validation.
data FromFields : Option Error → Type 0 where
  no_error : FromFields none
  some_fields : (fields : List FieldError) → FromFields (some (err_validation fields))

error_of-FromFields : (es : List FieldError) → FromFields (error_of es)
error_of-FromFields [] = no_error
error_of-FromFields (e ∷ es) = some_fields (e ∷ es)

validate-FromFields : (r : CreateNotificationRequest) → FromFields (validate r).1
unfolding validate
validate-FromFields r = error_of-FromFields _

validate_batch-FromFields : (b : BatchCreateRequest) → FromFields (validate_batch b).1
unfolding validate_batch
validate_batch-FromFields b = elim (Bool-cases (length b.notifications == 0)) [
  | inl empty ↦ rw empty (some_fields _)
  | inr more ↦ elim (Bool-cases (ltb max_batch_size (length b.notifications))) [
    | inl many ↦ rw (more, many) (some_fields _)
    | inr fine ↦ rw (more, fine) (error_of-FromFields _)
  ]
]

create_refused :
    (env : Env) (w : World) (r : CreateNotificationRequest) {e : Option Error}
    → FromFields e
    → e ≢ none
    → ((responded 201 notification (Service.create_valid env r e w)).1 ≡ w)
      × ((responded 201 notification (Service.create_valid env r e w)).0.status ≡ 400)
unfolding responded respond respond_error Service.create_valid Service.create_valid_batch
create_refused env w r no_error h = absurd (h refl)
create_refused env w r (some_fields fields) h = (refl, refl)

-- A request that `Validate` refuses is answered with 400, or with 429 if it is shed before, and
-- nothing is stored, published or called.
pub create_rejects :
    (env : Env) (depth : ℤ) (r : CreateNotificationRequest) (w : World)
    → (validate r).1 ≢ none
    → ((create env depth (some r) w).1 ≡ w)
      × (((create env depth (some r) w).0.status ≡ 400)
          ⊎ ((create env depth (some r) w).0.status ≡ 429))
unfolding create Service.create
create_rejects env depth r w h =
    elim (Bool-cases (check_backpressure depth (effective_priority r))) [
      | inl shed ↦ rw shed (refl, inr refl)
      | inr fine ↦ rw fine (
          let (same, bad) = create_refused env w (validate r).0 (validate-FromFields r) h in
          (same, inl bad))
    ]

create_batch_refused :
    (env : Env) (w : World) (b : BatchCreateRequest) {e : Option Error}
    → FromFields e
    → e ≢ none
    → ((responded 201 batch_payload (Service.create_valid_batch env b e w)).1 ≡ w)
      × ((responded 201 batch_payload (Service.create_valid_batch env b e w)).0.status ≡ 400)
unfolding responded respond respond_error Service.create_valid Service.create_valid_batch
create_batch_refused env w b no_error h = absurd (h refl)
create_batch_refused env w b (some_fields fields) h = (refl, refl)

-- A batch that `Validate` refuses is answered with 400, and nothing is stored, published or called.
pub create_batch_rejects :
    (env : Env) (b : BatchCreateRequest) (w : World)
    → (validate_batch b).1 ≢ none
    → ((create_batch env (some b) w).1 ≡ w) × ((create_batch env (some b) w).0.status ≡ 400)
unfolding create_batch Service.create_batch
create_batch_rejects env b w h =
    create_batch_refused env w (validate_batch b).0 (validate_batch-FromFields b) h
