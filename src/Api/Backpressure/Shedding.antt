-- ===== src/Api/Backpressure/Shedding.antt =====
-- Which requests are shed, and in which order of the priorities.
use notification_system.Base.{
  ◌&&◌, false, ◌+◌, ap, ℕ, ◌<◌, List, [], ◌∷◌, map, some, String, true, ◌≡◌, refl, arith, eq_iff,
}
use notification_system.Base.Int.{ℤ, pos, ◌≤ℤ◌}
use notification_system.Domain.Notification.{
  is_valid_priority, priority_low, priority_normal, priority_high,
}
use notification_system.Api.Backpressure.{check_backpressure, total_depth, poll_depth}

-- What is shed at one queue depth is shed at every greater one.
pub shed_monotone :
    (depth depth' : ℤ) (p : String)
    → depth ≤ℤ depth'
    → check_backpressure depth p ≡ true
    → check_backpressure depth' p ≡ true
unfolding check_backpressure
shed_monotone depth depth' p h shed = ground arith

-- Requests of low priority are shed at every depth at which those of normal priority are, and these
-- at every depth at which those of high priority are. A request without a known priority is treated
-- as normal.
pub shed_in_order :
    (depth : ℤ) (p : String)
    → is_valid_priority p ≡ false
    → ((check_backpressure depth priority_high && check_backpressure depth priority_normal)
        ≡ check_backpressure depth priority_high)
      × ((check_backpressure depth priority_normal && check_backpressure depth priority_low)
          ≡ check_backpressure depth priority_normal)
      × (check_backpressure depth p ≡ check_backpressure depth priority_normal)
unfolding check_backpressure is_valid_priority
shed_in_order depth p h = (
  ground arith,
  ground arith,
  ground (arith, eq_iff p priority_high, eq_iff p priority_normal, eq_iff p priority_low),
)

unfoldable pub total : List ℕ → ℕ
total [] = 0
total (n ∷ ns) = n + total ns

total_depth_all : (ns : List ℕ) → total_depth (map some ns) ≡ total ns
unfolding total_depth total
total_depth_all [] = refl
total_depth_all (n ∷ ns) = ap (λ t. n + t) (total_depth_all ns)

-- When the poller inspects every queue, and they hold fewer than 2^31 messages, the stored depth is
-- their sum.
pub poll_depth_exact :
    (depth : ℤ) (ns : List ℕ)
    → total ns < 2147483648
    → poll_depth depth (some (map some ns)) ≡ pos (total ns)
unfolding poll_depth
poll_depth_exact depth ns h = rw (total_depth_all ns) (ground arith)
