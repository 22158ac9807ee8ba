-- ===== src/Scenarios/Batch.antt =====
-- The theorem on an accepted batch, for a message that is due and one for later.
use notification_system.Base.{ℕ, List, [], ◌∷◌, some, none}
use notification_system.Domain.Errors.{ok, err}
use notification_system.Domain.Notification.{
  Notification, CreateNotificationRequest, BatchCreateRequest,
}
use notification_system.Repository.Batches
use notification_system.Service.{create_batch}
use notification_system.Scenarios.{healthy, greeting, resting}

abbrev tomorrow : CreateNotificationRequest
tomorrow = record greeting { idempotency_key = none; scheduled_at = some 86400000000000 }

abbrev both : BatchCreateRequest
both = record { notifications = greeting ∷ tomorrow ∷ [] }

abbrev batch : ℕ
batch = elim (create_batch healthy both resting).0 [ ok r ↦ r.0 | err e ↦ 0 ]

abbrev returned : List Notification
returned = elim (create_batch healthy both resting).0 [ ok r ↦ r.1 | err e ↦ [] ]
