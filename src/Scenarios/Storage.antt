-- ===== src/Scenarios/Storage.antt =====
-- The theorems on the tables and on the queries, at concrete inputs.
use mathlib.Core.List.{Perm}
use notification_system.Base.{none, some, ◌≡◌, ◌⊎◌, refl, arith, ◌<◌, find, length, filter}
use notification_system.Domain.Errors.{ok}
use notification_system.Domain.Notification.{
  Notification, status_pending, status_queued, status_cancelled, is_valid_channel,
  is_valid_priority,
}
use notification_system.World.{World, call}
use notification_system.Repository.Sql.{is_legal, breaks, update}
use notification_system.Repository.Sql.Sorting.{sort, place}
use notification_system.Repository.Notifications.{has_id, cancel, is_cancellable, cancelled_rows}
use notification_system.Repository.Cancelling.{cancel_ok}
use notification_system.Repository.Listing.{ListFilters, matches}
use notification_system.Repository.Listing.Order.{matching, Strict}
use notification_system.Repository.Listing.Pages.{read_pages, read_pages_complete}
use notification_system.Scenarios.{two_rows-IsTable, healthy, two_rows, resting}

cancel-succeeds : (cancel healthy 7 resting).0 ≡ ok tt
unfolding cancel update call breaks is_legal is_valid_channel is_valid_priority is_cancellable
    cancelled_rows
cancel-succeeds = refl

cancel_ok_example :
    (n : Notification) × (find (has_id 7) resting.rows ≡ some n)
    × ((n.status ≡ status_pending) ⊎ (n.status ≡ status_queued))
    × (find (has_id 7) (cancel healthy 7 resting).1.rows
        ≡ some (record n { status = status_cancelled; updated_at = (call healthy resting).1.now }))
cancel_ok_example = cancel_ok healthy 7 resting two_rows-IsTable cancel-succeeds

-- At a time at which both notifications are due.
abbrev later : World
later = record resting { now = 2000 }

abbrev no_filters : ListFilters
no_filters = record {
  status = none;
  channel = some "sms";
  priority = none;
  created_after = none;
  created_before = none;
}

two_match : length (matching no_filters two_rows) < 3
unfolding matching matches sort place
two_match = omega arith

read_pages_complete_example :
    (read_pages no_filters 1 two_rows 3 none ≡ matching no_filters two_rows)
    × Perm (matching no_filters two_rows) (filter (matches no_filters) two_rows)
    × Strict (matching no_filters two_rows)
read_pages_complete_example = read_pages_complete no_filters 1 two_rows two_rows-IsTable 3 two_match
