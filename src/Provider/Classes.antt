-- ===== src/Provider/Classes.antt =====
-- Which answers of the provider are successes, which are retried, and which are final.
use notification_system.Base.{ℕ, ◌≤◌, ◌<◌, String, ◌≡◌, ◌≢◌, ◌↔◌, ◌⊎◌, arith}
use notification_system.World.{Env, replied, no_reply}
use notification_system.Provider.{Sent, unexpected, accepted, retryable, non_retryable, classify}

pub data Class : Type 0 where
  success transient final unknown : Class

abbrev pub class : Sent → Class
class (unexpected m) = unknown
class (accepted r) = success
class (retryable code message) = transient
class (non_retryable code message) = final

-- A reply is a success exactly on a status from 200 to 299, final exactly on one from 400 to 499
-- other than 429, and worth a retry exactly otherwise; no reply at all is worth a retry.
pub classify_iff :
    (env : Env) (code : ℕ) (body message : String)
    → ((class (classify env (replied code body)) ≡ success) ↔ ((200 ≤ code) × (code < 300)))
      × ((class (classify env (replied code body)) ≡ final)
          ↔ ((400 ≤ code) × (code < 500) × (code ≢ 429)))
      × ((class (classify env (replied code body)) ≡ transient)
          ↔ ((code < 200) ⊎ (((300 ≤ code) × (code < 400)) ⊎ ((code ≡ 429) ⊎ (500 ≤ code)))))
      × (class (classify env (no_reply message)) ≡ transient)
unfolding classify
classify_iff env code body message = ground arith
