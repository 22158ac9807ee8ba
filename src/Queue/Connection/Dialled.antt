-- ===== src/Queue/Connection/Dialled.antt =====
-- When `NewConnection` connects, and how long it tries.
use notification_system.Base.{ℕ, zero, suc, find, [], ◌∷◌, ◌+◌, ◌*◌, Option, none, some, ◌≡◌, arith}
use notification_system.CircuitBreaker.{second}
use notification_system.Queue.Connection.{Dial, dial_again, new_connection}

-- The time that `k` failed dials take from the one of number `i`, with the pause after each.
pub spent : (ℕ → Dial) → ℕ → ℕ → ℕ
spent dial i zero = 0
spent dial i (suc k) = (dial i).took + (2 * second + spent dial (suc i) k)

-- By the number of the first dial that connects: that dial is used, after the failed ones before it;
-- without one, the last pause is over.
pub ended : (ℕ → Dial) → ℕ → Option ℕ → Option ℕ × ℕ
ended dial now (some k) = (some k, now + (spent dial 0 k + (dial k).took))
ended dial now none = (none, now + spent dial 0 5)

-- The first of the five dials that connects is used, after a pause of two seconds after each failed
-- one; if none connects, there is no connection, and five dials and five pauses, one of them after
-- the last dial, have been spent.
pub new_connection-ended :
    (dial : ℕ → Dial) (now : ℕ)
    → new_connection dial now
      ≡ ended dial now (find (λ i. (dial i).connects) (0 ∷ 1 ∷ 2 ∷ 3 ∷ 4 ∷ []))
unfolding new_connection dial_again spent ended
new_connection-ended dial now = ground arith
