-- ===== src/RateLimiter/Wait/Keeps.antt =====
-- What a wait for the rate limiter leaves alone: all but the clock, the calls made and the bucket.
use notification_system.Base.{ℕ, zero, suc, Option, Bool, true, false, ◌+◌, ◌≡◌, refl, ◌∙◌}
use notification_system.Domain.Errors.{Result, ok, err}
use notification_system.World.{Env, World, Verdict, answered, refused, unread, Bucket, call}
use notification_system.RateLimiter.Wait.{
  allow_after, allow, Waited, Fired, tick, deadline, done, select, wait_after, wait_loop,
  wait_limit, wait, micros,
}

-- A reading `view` of the world that the clock, the calls and the bucket do not change.
module _ {ℓ} {A : Type ℓ} (view : World → A)
    (blind : (w : World) (now calls : ℕ) (b : Option Bucket)
      → view (record w { now = now; calls = calls; bucket = b }) ≡ view w) where
  allow_after-keeps :
      (rate now : ℕ) (v : Verdict) (w : World) → view (allow_after rate now (v, w)).1 ≡ view w
  unfolding allow_after
  allow_after-keeps rate now (refused m) w = refl
  allow_after-keeps rate now (unread m) w = blind w w.now w.calls _
  allow_after-keeps rate now answered w = blind w w.now w.calls _

  pub allow-keeps : (env : Env) (rate : ℕ) (w : World) → view (allow env rate w).1 ≡ view w
  unfolding allow call
  allow-keeps env rate w =
      allow_after-keeps rate (micros w.now) (call env w).0 (call env w).1
      ∙ blind w (call env w).1.now (suc w.calls) w.bucket

  wait_after-keeps :
      (env : Env) (limit : ℕ) (again : World → Waited × World) (r : Result Bool) (w : World)
      → ((v : World) → view (again v).1 ≡ view v)
      → view (wait_after env limit again (r, w)).1 ≡ view w
  unfolding wait_after
  wait_after-keeps env limit again (err e) w h = refl
  wait_after-keeps env limit again (ok true) w h = refl
  wait_after-keeps env limit again (ok false) w h = go (select env.cancelled_at limit w.now) refl
    where
      go :
          (f : Fired)
          → select env.cancelled_at limit w.now ≡ f
          → view (wait_after env limit again (ok false, w)).1 ≡ view w
      go (tick t) e = rw (e, wait_after) (h (record w { now = t }) ∙ blind w t w.calls w.bucket)
      go (deadline t) e = rw (e, wait_after) (blind w t w.calls w.bucket)
      go (done t) e = rw (e, wait_after) (blind w t w.calls w.bucket)

  wait_loop-keeps :
      (env : Env) (rate limit fuel : ℕ) (w : World)
      → view (wait_loop env rate limit fuel w).1 ≡ view w
  unfolding wait_loop
  wait_loop-keeps env rate limit zero w = refl
  wait_loop-keeps env rate limit (suc fuel) w =
      let (r, w') = allow env rate w in
      wait_after-keeps env limit (wait_loop env rate limit fuel) r w'
        (λ v. wait_loop-keeps env rate limit fuel v)
      ∙ allow-keeps env rate w

  pub wait-keeps : (env : Env) (rate : ℕ) (w : World) → view (wait env rate w).1 ≡ view w
  unfolding wait
  wait-keeps env rate w = wait_loop-keeps env rate (w.now + wait_limit) 501 w
