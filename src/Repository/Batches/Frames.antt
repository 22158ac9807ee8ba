-- ===== src/Repository/Batches/Frames.antt =====
-- A batch's transaction touches the database only.
use notification_system.Base.{ℕ, suc, List, [], ◌∷◌, ◌≡◌, refl, ◌∙◌, arith}
use notification_system.Domain.Errors.{Result, ok, err}
use notification_system.Domain.Notification.{Notification}
use notification_system.World.{
  Env, World, Verdict, answered, refused, unread, bind, call, draw_uuid,
}
use notification_system.Repository.Notifications.{with_defaults}
use notification_system.Repository.Batches.{
  Progress, insert_after, insert_item, insert_items, commit_after, commit, begin_after,
  create_batch,
}

-- An action that follows another and publishes nothing.
pub bind-queue {ℓ κ} :
    {A : Type ℓ} {B : Type κ} (s : Result A × World) (k : A → World → Result B × World)
    → ((a : A) (w : World) → (k a w).1.queue ≡ w.queue)
    → (bind s k).1.queue ≡ s.1.queue
bind-queue (ok a, w) k h = h a w
bind-queue (err e, w) k h = refl

-- Inversion of a chain that succeeds.
pub bind-eq-ok {ℓ κ} :
    {A : Type ℓ} {B : Type κ} (s : Result A × World) (k : A → World → Result B × World) {b : B}
    → (bind s k).0 ≡ ok b
    → (a : A) × (s.0 ≡ ok a) × (bind s k ≡ k a s.1)
bind-eq-ok (ok a, w) k h = (a, refl, refl)
bind-eq-ok (err e, w) k h = cc

-- From `w` to `w'` at most the tables have changed, the clock and the numbers of calls and of UUIDs.
pub record OnlyRows (w w' : World) : Type 0 where
  pub queue : w'.queue ≡ w.queue
  pub updates : w'.updates ≡ w.updates
  pub requests : w'.requests ≡ w.requests
  pub breaker : w'.breaker ≡ w.breaker
  pub bucket : w'.bucket ≡ w.bucket

OnlyRows-refl : (w : World) → OnlyRows w w
OnlyRows-refl w = record {
  queue = refl;
  updates = refl;
  requests = refl;
  breaker = refl;
  bucket = refl;
}

pub OnlyRows-trans : {u v w : World} → OnlyRows u v → OnlyRows v w → OnlyRows u w
OnlyRows-trans p q = record {
  queue = q.queue ∙ p.queue;
  updates = q.updates ∙ p.updates;
  requests = q.requests ∙ p.requests;
  breaker = q.breaker ∙ p.breaker;
  bucket = q.bucket ∙ p.bucket;
}

pub bind-OnlyRows {ℓ κ} :
    {A : Type ℓ} {B : Type κ} {u : World} (s : Result A × World) (k : A → World → Result B × World)
    → OnlyRows u s.1
    → ((a : A) (w : World) → OnlyRows w (k a w).1)
    → OnlyRows u (bind s k).1
bind-OnlyRows (ok a, w) k p h = OnlyRows-trans p (h a w)
bind-OnlyRows (err e, w) k p h = p

insert_item-OnlyRows :
    (env : Env) (i started : ℕ) (n : Notification) (p : Progress) (w : World)
    → OnlyRows w (insert_item env i started n p w).1
unfolding insert_item insert_after with_defaults call draw_uuid
insert_item-OnlyRows env i started n p w = ground arith

insert_items-OnlyRows :
    (env : Env) (i started : ℕ) (ns : List Notification) (p : Progress) (w : World)
    → OnlyRows w (insert_items env i started ns p w).1
unfolding insert_items
insert_items-OnlyRows env i started [] p w = OnlyRows-refl w
insert_items-OnlyRows env i started (n ∷ ns) p w =
    bind-OnlyRows (insert_item env i started n p w) (insert_items env (suc i) started ns)
      (insert_item-OnlyRows env i started n p w)
      (λ p' w'. insert_items-OnlyRows env (suc i) started ns p' w')

commit-OnlyRows : (env : Env) (p : Progress) (w : World) → OnlyRows w (commit env p w).1
unfolding commit commit_after call
commit-OnlyRows env p w = ground arith

call-OnlyRows : (env : Env) (w : World) → OnlyRows w (call env w).1
unfolding call
call-OnlyRows env w = ground arith

begin_after-OnlyRows :
    (env : Env) (ns : List Notification) (v : Verdict) (w : World)
    → OnlyRows w (begin_after env ns (v, w)).1
unfolding begin_after
begin_after-OnlyRows env ns (refused m) w = OnlyRows-refl w
begin_after-OnlyRows env ns (unread m) w = OnlyRows-refl w
begin_after-OnlyRows env ns answered w =
    let start : Progress = record { table = w.rows; created = [] } in
    bind-OnlyRows (insert_items env 0 w.now ns start w) (commit env)
      (insert_items-OnlyRows env 0 w.now ns start w) (commit-OnlyRows env)

-- A batch's transaction leaves everything but the table alone.
pub create_batch-OnlyRows :
    (env : Env) (ns : List Notification) (w : World) → OnlyRows w (create_batch env ns w).1
unfolding create_batch
create_batch-OnlyRows env ns w =
    OnlyRows-trans (call-OnlyRows env w) (begin_after-OnlyRows env ns (call env w).0 (call env w).1)

pub create_batch-queue :
    (env : Env) (ns : List Notification) (w : World) → (create_batch env ns w).1.queue ≡ w.queue
create_batch-queue env ns w = (create_batch-OnlyRows env ns w).queue
