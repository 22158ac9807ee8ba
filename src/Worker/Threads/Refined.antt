-- ===== src/Worker/Threads/Refined.antt =====
-- What comes before the circuit breaker, for a worker on its own: the fetch, the wait for the retry's
-- time, the mark and the status update.
use notification_system.Base.{
  ℕ, Option, none, some, true, false, ltb, leb, max, if◌then◌else◌, ◌≡◌, refl, arith, Bool-cases,
  inl, inr,
}
use notification_system.Domain.Errors.{Result, ok, err}
use notification_system.Domain.Notification.{Notification, status_processing}
use notification_system.World.{Env, World, Message, sleep_until}
use notification_system.Repository.Notifications.{get_by_id, update_status}
use notification_system.Worker.Processor.{
  Config, notify, after_mark, mark, backoff_wait, after_backoff, after_get, with_id, process,
}
use notification_system.Worker.Threads.{
  fetching, holding_off, marking, telling, sleeping, step, begin, fetched, slept, held_off, marked,
}
use notification_system.Worker.Threads.Alone.{Ends, iterate, next-Ends, asking-Ends}

module _ (env : Env) (c : Config) where
  marked-Ends :
      (id : ℕ) (msg : Message) (n : Notification) (r : Result (Unit {0})) (w : World)
      → Ends env c (marked id msg n (r, w)) (after_mark env c id msg n (r, w))
  unfolding marked after_mark iterate step
  marked-Ends id msg n (err e) w = (0, refl)
  marked-Ends id msg n (ok _) w =
      next-Ends env c (telling id msg n) w (after_mark env c id msg n (ok tt, w))
        (asking-Ends env c id msg n (notify env id status_processing msg.channel w))

  marking-Ends :
      (id : ℕ) (msg : Message) (n : Notification) (w : World)
      → Ends env c (marking id msg n, w) (mark env c id msg n w)
  unfolding step mark
  marking-Ends id msg n w =
      let s = update_status env id status_processing w in
      next-Ends env c (marking id msg n) w (mark env c id msg n w) (marked-Ends id msg n s.0 s.1)

  slept-Ends :
      (id : ℕ) (msg : Message) (n : Notification) (cancel : Option ℕ) (t : ℕ) (w : World)
      → Ends env c
          (slept cancel id msg n t w, w)
          (after_backoff env c id msg n (elim cancel [
            | none ↦ (true, record w { now = max w.now t })
            | some c' ↦
                if leb c' w.now
                then (false, w)
                else if leb t c'
                then (true, record w { now = max w.now t })
                else (false, record w { now = c' })
          ]))
  unfolding slept after_backoff iterate step
  slept-Ends id msg n none t w =
      next-Ends env c (sleeping t (marking id msg n)) w
        (mark env c id msg n (record w { now = max w.now t }))
        (marking-Ends id msg n (record w { now = max w.now t }))
  slept-Ends id msg n (some c') t w = elim (Bool-cases (leb c' w.now)) [
    | inl over ↦ rw over (0, refl)
    | inr ahead ↦ elim (Bool-cases (leb t c')) [
      | inl before ↦
          rw (ahead, before)
            (next-Ends env c (sleeping t (marking id msg n)) w
              (mark env c id msg n (record w { now = max w.now t }))
              (marking-Ends id msg n (record w { now = max w.now t })))
      | inr after ↦
          let wakes : max w.now c' ≡ c' = ground (arith, ahead) in
          rw (ahead, after) (1, rw wakes refl)
    ]
  ]

  held_off-Ends :
      (id : ℕ) (msg : Message) (n : Notification) (t : Option ℕ) (w : World)
      → Ends env c
          (held_off env id msg n t w, w)
          (after_backoff env c id msg n (backoff_wait env t w))
  unfolding held_off after_backoff backoff_wait sleep_until
  held_off-Ends id msg n none w = marking-Ends id msg n w
  held_off-Ends id msg n (some t) w = elim (Bool-cases (ltb w.now t)) [
    | inl early ↦ rw early (slept-Ends id msg n env.cancelled_at t w)
    | inr due ↦ rw due (marking-Ends id msg n w)
  ]

  fetched-Ends :
      (id : ℕ) (msg : Message) (r : Result Notification) (w : World)
      → Ends env c (fetched id msg (r, w)) (after_get env c id msg (r, w))
  unfolding fetched after_get iterate step
  fetched-Ends id msg (err e) w = (0, refl)
  fetched-Ends id msg (ok n) w =
      next-Ends env c (holding_off id msg n) w (after_get env c id msg (ok n, w))
        (held_off-Ends id msg n n.next_retry_at w)

  fetching-Ends :
      (id : ℕ) (msg : Message) (w : World)
      → Ends env c (fetching id msg, w) (after_get env c id msg (get_by_id env id w))
  unfolding step
  fetching-Ends id msg w =
      let s = get_by_id env id w in
      next-Ends env c (fetching id msg) w (after_get env c id msg s) (fetched-Ends id msg s.0 s.1)

  -- A worker that takes a delivery and is not interrupted ends, with the settlement and in the world of
  -- `Process`: the steps refine it.
  pub begin-Ends :
      (body : Option Message) (w : World) → Ends env c (begin env body, w) (process env c body w)
  unfolding begin process with_id iterate
  begin-Ends none w = (0, refl)
  begin-Ends (some msg) w = parsed (env.uuid_parse msg.id) refl
    where
      parsed :
          (o : Option ℕ)
          → env.uuid_parse msg.id ≡ o
          → Ends env c (begin env (some msg), w) (process env c (some msg) w)
      parsed none e = rw (e, begin) (0, refl)
      parsed (some id) e = rw (e, begin) (fetching-Ends id msg w)
