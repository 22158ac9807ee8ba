-- ===== src/Api/Backpressure.antt =====
-- internal/api/handler/notification.go, `checkBackpressure`, with the queue depth that cmd/server's
-- poller stores: an `atomic.Int32`, to which the poller converts the sum of the queues' lengths.
pub mod Shedding
use notification_system.Base.{
  ℕ, ◌+◌, ◌-◌, ◌%◌, List, [], ◌∷◌, String, Option, none, some, Bool, str_eq, ltb, if◌then◌else◌,
}
use notification_system.Base.Int.{ℤ, pos, negsuc, ltb_ℤ}
use notification_system.Domain.Notification.{priority_low, priority_normal, priority_high}

abbrev pub threshold_low : ℕ
threshold_low = 5000

abbrev pub threshold_normal : ℕ
threshold_normal = 8000

abbrev pub threshold_high : ℕ
threshold_high = 10000

unfoldable pub check_backpressure : ℤ → String → Bool
check_backpressure depth priority =
    if str_eq priority priority_low
    then ltb_ℤ (pos threshold_low) depth
    else if str_eq priority priority_normal
    then ltb_ℤ (pos threshold_normal) depth
    else if str_eq priority priority_high
    then ltb_ℤ (pos threshold_high) depth
    else ltb_ℤ (pos threshold_normal) depth

-- `int32(total)`
unfoldable pub int32 : ℕ → ℤ
int32 n = let x = n % 4294967296 in if ltb x 2147483648 then pos x else negsuc (4294967295 - x)

-- cmd/server/main.go, the loop over the queues: `break` leaves it at the first that cannot be
-- inspected (`none`), and what was summed up to there is stored.
unfoldable pub total_depth : List (Option ℕ) → ℕ
total_depth [] = 0
total_depth (none ∷ qs) = 0
total_depth (some messages ∷ qs) = messages + total_depth qs

-- One tick of the poller: without a channel the depth stays as it was.
unfoldable pub poll_depth : ℤ → Option (List (Option ℕ)) → ℤ
unfolding int32 total_depth
poll_depth depth none = depth
poll_depth depth (some qs) = int32 (total_depth qs)
