-- ===== src/Scenarios/Composition.antt =====
-- The theorems on the parts together, at concrete inputs: a request that is created, read back and
-- delivered, a message that is delivered again, and a poll of the scheduler.
use text.Mathlib.TextPositions.{len-append}
use notification_system.Base.{
  ℕ, suc, zero, ◌+◌, ◌-◌, ◌≤◌, String, len, List, [], ◌∷◌, ◌++◌, map, some, ◌≡◌, ◌≢◌, refl, ap, ◌∙◌,
  arith, ◌<>◌, length, All,
}
use notification_system.Domain.Errors.{ok, err}
use notification_system.Domain.Notification.{
  Notification, status_queued, is_valid_channel, is_valid_priority,
}
use notification_system.Domain.Validate.{check_channel, validate_content_length, validate}
use notification_system.CircuitBreaker.{closed, new}
use notification_system.World.{Env, World, ProviderResponse, call, draw_uuid, replied}
use notification_system.Repository.Sql.{
  is_legal, clashes, insert, is_valid_status, update, breaks, map_where,
}
use notification_system.Repository.Notifications
use notification_system.Repository.Notifications.{has_id, is_ready, some_row, update_status}
use notification_system.Repository.Found.{HasRow}
use notification_system.Queue.Producer.{publishing, publish}
use notification_system.Provider.{classify, accepted, request_of}
use notification_system.Service.{
  create, create_valid, resolve_template, notification_of, enqueue, enqueued, is_future,
}
use notification_system.Service.Creation.{create-get_by_id}
use notification_system.Worker.Processor.{process}
use notification_system.Worker.Processor.Delivery.{IsDelivered}
use notification_system.Worker.Processor.Retries.{redeliver, redeliver-requests_bounded}
use notification_system.EndToEnd.{create-process_delivers}
use notification_system.Scheduler.{poll, Round, tick, done, start}
use notification_system.Scheduler.Life.{start_publishes_once}
use notification_system.Repository.Distinct.{Distinct}
use notification_system.Repository.Rows.{
  scan_notification, columns_of, scan_notification-columns_of,
}
use notification_system.Scheduler.Due.{ready}
use notification_system.Scheduler.Released.{IsQueued}
use notification_system.Scheduler.Once.{poll_publishes_once}
use notification_system.Scenarios.{
  config, two_rows-IsTable, healthy, greeting, pending, resting, delivery,
}

-- An id written as a text of that length, and read back.
written : ℕ → String
written zero = ""
written (suc n) = "x" <> written n

written-len : (n : ℕ) → len (written n) ≡ n
unfolding written
written-len zero = refl
written-len (suc n) = len-append "x" (written n) ∙ (ap (λ k. 1 + k) (written-len n) ∙ omega arith)

abbrev paired : Env
paired = record healthy { uuid_string = written; uuid_parse = λ s. some (len s) }

abbrev created : Notification
created = elim (create paired greeting resting).0 [ ok n ↦ n | err e ↦ pending 0 ]

created_ok : (create paired greeting resting).0 ≡ ok created
unfolding create create_valid resolve_template notification_of enqueue enqueued is_future publish
    validate check_channel is_valid_channel validate_content_length Notifications.create call
    draw_uuid insert is_legal is_valid_priority clashes
created_ok = refl

created_queued : created.status ≡ status_queued
unfolding create create_valid resolve_template notification_of enqueue enqueued is_future publish
    validate check_channel is_valid_channel validate_content_length Notifications.create call
    draw_uuid insert is_legal is_valid_priority clashes update_status update breaks is_valid_status
    some_row map_where
created_queued = refl

create-get_by_id_example :
    (t : ℕ) × ((Notifications.get_by_id paired created.id (create paired greeting resting).1).0
      ≡ ok (record created { updated_at = t }))
create-get_by_id_example =
    create-get_by_id paired greeting resting created (λ k. refl) two_rows-IsTable created_ok

abbrev reply : ProviderResponse
reply = record { message_id = "m1"; status = "accepted"; timestamp = "now" }

reply_accepted : (k : ℕ) → classify paired (paired.reply k) ≡ accepted reply
unfolding classify
reply_accepted k = refl

new_closed : (new 0).state ≡ closed
unfolding new
new_closed = refl

create-process_delivers_example :
    ((create paired greeting resting).1.queue ≡ [] ++ publishing paired created ∷ [])
    × IsDelivered created.id reply ([] ++ request_of created ∷ []) (
        process paired config
          (some (publishing paired created).body)
          (create paired greeting resting).1)
create-process_delivers_example =
    create-process_delivers paired config greeting created reply resting (λ k. refl) reply_accepted
      (λ i. ap some (written-len i)) (omega arith) (omega arith) two_rows-IsTable new_closed refl
      created_ok created_queued

-- The provider is overloaded.
abbrev overloaded : Env
overloaded = record healthy { reply = λ k. replied 503 "busy" }

first_row : HasRow 7 (pending 7) resting
first_row = record { row = refl; table = two_rows-IsTable }

redeliver-requests_bounded_example :
    length (redeliver 20 overloaded config (delivery "7") resting).1.requests ≤ 0 + suc (5 - 0)
redeliver-requests_bounded_example =
    redeliver-requests_bounded overloaded config (delivery "7") 7 20 (pending 7) resting (λ k. refl)
      refl first_row

-- At a time at which both notifications are due.
abbrev later : World
later = record resting { now = 2000 }

poll_publishes_once_example :
    let due = ready (call healthy later).1.now later.rows in
    ((poll healthy later).queue ≡ [] ++ map (publishing healthy) due)
    × All (IsQueued (poll healthy later)) due
    × All (λ k. (t : ℕ) → All (λ m. m.id ≢ k.id) (ready t (poll healthy later).rows)) due
poll_publishes_once_example = poll_publishes_once healthy (λ k. refl) later two_rows-IsTable

-- Two polls, and then the scheduler stops.
abbrev rounds : List Round
rounds = tick 5000000000 ∷ tick 10000000000 ∷ done ∷ tick 15000000000 ∷ []

start_publishes_once_example :
    (ns : List Notification) × ((start healthy rounds resting).queue
      ≡ [] ++ map (publishing healthy) ns)
    × Distinct ns
start_publishes_once_example =
    start_publishes_once healthy (λ k. refl) rounds resting two_rows-IsTable

-- A row of a batch, with an empty subject.
abbrev batched : Notification
batched = record (pending 7) { batch_id = some 12; subject = some "" }

scan_notification-columns_of_example :
    scan_notification paired.uuid_parse (ok (columns_of written batched)) ≡ ok batched
scan_notification-columns_of_example =
    scan_notification-columns_of paired.uuid_parse written batched (λ i. ap some (written-len i))
