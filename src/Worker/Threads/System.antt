-- ===== src/Worker/Threads/System.antt =====
-- Any number of workers over one world, interleaved in any order, while the API and the scheduler
-- write to the table and time passes.
use notification_system.Base.{ℕ, ◌+◌, ◌==◌, Option, if◌then◌else◌, ◌≡◌}
use notification_system.World.{Env, World, Message}
use notification_system.Repository.Lifecycle.{Operation, apply}
use notification_system.Worker.Processor.{Config, Settlement}
use notification_system.Worker.Threads.{Place, recording, settled, step, begin}

-- A worker between two deliveries stands where its last one ended. `outcomes` counts the calls of
-- `RecordSuccess` and `RecordFailure`; no code reads it.
pub record System : Type 0 where
  pub world : World
  pub place : ℕ → Place
  pub outcomes : ℕ

unfoldable pub update {ℓ} : {A : Type ℓ} → (ℕ → A) → ℕ → A → ℕ → A
update f i a j = if i == j then a else f j

-- How many outcomes the next step of a worker at this place records.
unfoldable pub records : Place → ℕ
records (recording id msg n s) = 1
records _ = 0

-- Worker `i`, at `p`, takes its next step.
abbrev pub moved : Env → Config → System → ℕ → Place → System
moved env c s i p =
    let (p', w) = step env c p s.world in
    record { world = w; place = update s.place i p'; outcomes = s.outcomes + records p }

pub data Step (env : Env) (c : Config) (s : System) : System → Type 0 where
  take :
      (i : ℕ) (last : Settlement) (body : Option Message)
      → s.place i ≡ settled last
      → Step env c s (record s { place = update s.place i (begin env body) })
  move : (i : ℕ) → Step env c s (moved env c s i (s.place i))
  write : (o : Operation) → Step env c s (record s { world = apply env o s.world })
  pass : (d : ℕ) → Step env c s (record s { world = record s.world { now = s.world.now + d } })

pub data Reach (env : Env) (c : Config) (s : System) : System → Type 0 where
  here : Reach env c s s
  next : {t u : System} → Reach env c s t → Step env c t u → Reach env c s u
