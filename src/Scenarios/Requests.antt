-- ===== src/Scenarios/Requests.antt =====
-- The theorems on requests, routing and the delays, at concrete inputs.
use notification_system.Base.{
  ℕ, [], ◌∷◌, none, ◌≡◌, ◌≢◌, ◌↔◌, ◌⊎◌, refl, arith, length, ◌≤◌, ◌<◌, All,
}
use notification_system.Base.Int.{pos}
use notification_system.Domain.Notification.{BatchCreateRequest}
use notification_system.Domain.Template.{substitute}
use notification_system.Domain.Validate.{validate, validate_batch}
use notification_system.Domain.Validate.Acceptance.{IsAcceptable, validate_iff}
use notification_system.Domain.Validate.Batch.{validate_batch_iff}
use notification_system.Worker.Backoff.{calculate_backoff}
use notification_system.Worker.Backoff.Bounds.{
  intended, calculate_backoff-intended, calculate_backoff_overflow,
}
use notification_system.World.{replied, no_reply}
use notification_system.Provider.{classify}
use notification_system.Provider.Classes.{class, success, final, transient, classify_iff}
use notification_system.Scenarios.{greeting, healthy}

rendered :
    substitute (("name", "John") ∷ ("code", "1234") ∷ []) "Hello {{name}}, your code is {{code}}"
    ≡ "Hello John, your code is 1234"
unfolding substitute
rendered = refl

validate_iff_example : ((validate greeting).1 ≡ none) ↔ IsAcceptable greeting
validate_iff_example = validate_iff greeting

abbrev greetings : BatchCreateRequest
greetings = record { notifications = greeting ∷ greeting ∷ [] }

validate_batch_iff_example : ((validate_batch greetings).1 ≡ none) ↔ (
    (1 ≤ length greetings.notifications)
    × (length greetings.notifications ≤ 1000)
    × All IsAcceptable greetings.notifications)
validate_batch_iff_example = validate_batch_iff greetings

calculate_backoff-intended_example : calculate_backoff 3 17 ≡ pos (intended 3 17)
calculate_backoff-intended_example = calculate_backoff-intended 3 17 (omega arith) (omega arith)

calculate_backoff_overflow_example : calculate_backoff 60 17 ≡ pos 17
calculate_backoff_overflow_example = calculate_backoff_overflow 60 17 (omega arith) (omega arith)

classify_iff_example :
    ((class (classify healthy (replied 429 "slow down")) ≡ success) ↔ ((200 ≤ 429) × (429 < 300)))
    × ((class (classify healthy (replied 429 "slow down")) ≡ final)
        ↔ ((400 ≤ 429) × (429 < 500) × (◌≢◌ {A = ℕ} 429 429)))
    × ((class (classify healthy (replied 429 "slow down")) ≡ transient)
        ↔ ((429 < 200) ⊎ (((300 ≤ 429) × (429 < 400)) ⊎ ((◌≡◌ {A = ℕ} 429 429) ⊎ (500 ≤ 429)))))
    × (class (classify healthy (no_reply "timeout")) ≡ transient)
classify_iff_example = classify_iff healthy 429 "slow down" "timeout"
