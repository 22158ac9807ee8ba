-- ===== src/Api/Health.antt =====
-- internal/api/handler/health.go: each of the three checks is nil, or the error's text.
use notification_system.Base.{
  ◌≡◌, ◌↔◌, ◌⊎◌, arith, String, [], ◌∷◌, Option, none, some, Bool, ◌&&◌, ◌<>◌, if◌then◌else◌, true,
  false,
}
use notification_system.Api.Responses.{Response, health, respond_json}

check : Option String → String
check none = "ok"
check (some e) = "failed: " <> e

passed : Option String → Bool
passed none = true
passed (some e) = false

unfoldable pub health_check : Option String → Option String → Option String → Response
unfolding check passed respond_json
health_check database rabbitmq redis =
    let healthy = passed database && (passed rabbitmq && passed redis) in
    respond_json (if healthy then 200 else 503) (
      health (record {
        status = if healthy then "healthy" else "degraded";
        checks =
            ("database", check database)
            ∷ ("rabbitmq", check rabbitmq)
            ∷ ("redis", check redis)
            ∷ [];
      }))

-- The answer is 200 exactly when all three checks succeed, and 503 exactly otherwise.
pub health_check-200_iff :
    (database rabbitmq redis : Option String)
    → (((health_check database rabbitmq redis).status ≡ 200)
        ↔ ((database ≡ none) × (rabbitmq ≡ none) × (redis ≡ none)))
      × (((health_check database rabbitmq redis).status ≡ 200)
          ⊎ ((health_check database rabbitmq redis).status ≡ 503))
unfolding health_check
health_check-200_iff none none none = ground arith
health_check-200_iff none none (some e) = ground arith
health_check-200_iff none (some e) redis = ground arith
health_check-200_iff (some e) rabbitmq redis = ground arith
