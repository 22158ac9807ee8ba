-- ===== src/Api/Metrics/Queues/Closed.antt =====
-- Which channels `getQueueDepths` leaves open.
use notification_system.Base.{
  ℕ, suc, String, List, [], ◌∷◌, Option, none, some, Bool, true, false, ◌&&◌, not, ◌≡◌, ◌∙◌, refl,
  if◌then◌else◌, Bool-cases, inl, inr,
}
use notification_system.Base.Int.{ℤ, pos, negsuc}
use notification_system.Base.Dict.{Dict, put}
use notification_system.Queue.Topology.{
  queue_sms, queue_email, queue_push, dl_queue_sms, dl_queue_email, dl_queue_push,
}
use notification_system.Api.Metrics.Queues.{
  QueueMetrics, Broker, Session, queues, inspect, reopen, inspect_pair, inspect_all, close_first,
  get_queue_depths,
}

-- What an inspection shows.
depth_of : Option ℕ → ℤ
depth_of none = negsuc 0
depth_of (some n) = pos n

unfoldable pub answers : Option ℕ → Bool
answers none = false
answers (some n) = true

-- The table with every queue as the broker answers for it, the inspections counted from `d`.
unfoldable pub table :
    Broker → ℕ → List (String × String × String) → Dict QueueMetrics → Dict QueueMetrics
unfolding depth_of
table b d [] result = result
table b d ((channel, main, dlq) ∷ qs) result = table b (suc (suc d)) qs (
    put channel
      (record {
        depth = depth_of (b.messages d main);
        dlq_depth = depth_of (b.messages (suc d) dlq);
      })
      result)

-- The broker answers each of the inspections.
unfoldable pub answers_all : Broker → ℕ → List (String × String × String) → Bool
unfolding answers
answers_all b d [] = true
answers_all b d ((channel, main, dlq) ∷ qs) =
    answers (b.messages d main)
    && (answers (b.messages (suc d) dlq) && answers_all b (suc (suc d)) qs)

-- A session with one open channel.
abbrev one_open : ℕ → ℕ → Bool → Session
one_open a d f = record { attempts = a; held = 1; declared = d; usable = true; first = f }

and_shift : (f a e r : Bool) → (((f && a) && e) && r) ≡ (f && (a && (e && r)))
and_shift true a e r = elim (Bool-cases a) [ inl p ↦ rw p refl | inr p ↦ rw p refl ]
and_shift false a e r = refl

module _ (b : Broker) (opens : (k : ℕ) → b.opens k ≡ true) where
  inspect-answered :
      (name : String) (a d : ℕ) (f : Bool) (o : Option ℕ)
      → b.messages d name ≡ o
      → (a' : ℕ) × inspect b name (one_open a d f)
          ≡ some
              (depth_of (b.messages d name), one_open a' (suc d) (f && answers (b.messages d name)))
  unfolding inspect reopen depth_of answers
  inspect-answered name a d true none e = (suc a, rw (e, opens a) refl)
  inspect-answered name a d false none e = (suc a, rw (e, opens a) refl)
  inspect-answered name a d true (some n) e = (a, rw e refl)
  inspect-answered name a d false (some n) e = (a, rw e refl)

  inspect_all-one_open :
      (qs : List (String × String × String)) (result : Dict QueueMetrics) (a d : ℕ) (f : Bool)
      → (a' : ℕ) × (d' : ℕ) × inspect_all b qs result (one_open a d f)
          ≡ some (table b d qs result, one_open a' d' (f && answers_all b d qs))
  unfolding inspect_all inspect_pair table answers_all inspect put inspect-answered
  inspect_all-one_open [] result a d true = (a, d, refl)
  inspect_all-one_open [] result a d false = (a, d, refl)
  inspect_all-one_open ((channel, main, dlq) ∷ qs) result a d f =
      let (a1, e1) = inspect-answered main a d f (b.messages d main) refl in
      let (a2, e2) =
        inspect-answered dlq a1 (suc d) (f && answers (b.messages d main)) (b.messages (suc d) dlq)
          refl in
      let (a3, d3, e3) =
        inspect_all-one_open qs
          (put channel
            (record {
              depth = depth_of (b.messages d main);
              dlq_depth = depth_of (b.messages (suc d) dlq);
            })
            result)
          a2 (suc (suc d))
          ((f && answers (b.messages d main)) && answers (b.messages (suc d) dlq)) in
      (
        a3,
        d3,
        rw (e1, e2)
            (e3
              ∙ rw
                  (and_shift f (answers (b.messages d main)) (answers (b.messages (suc d) dlq))
                    (answers_all b (suc (suc d)) qs))
                  refl),
      )

  -- Where every channel that is asked for opens, the table shows for every queue what the broker
  -- answers, -1 where an inspection fails; one channel is left open if any inspection fails, and none
  -- otherwise.
  pub get_queue_depths-leaves_open :
      get_queue_depths b ≡ some (table b 0 queues [], if answers_all b 0 queues then 0 else 1)
  unfolding get_queue_depths close_first
  get_queue_depths-leaves_open =
      let (a, d, e) = inspect_all-one_open queues [] 1 0 true in
      rw (opens 0, e)
        (elim (Bool-cases (answers_all b 0 queues)) [ inl p ↦ rw p refl | inr p ↦ rw p refl ])

unfoldable pub panics {ℓ} : {A : Type ℓ} → Option A → Bool
panics none = true
panics (some a) = false

module _ (b : Broker) (opens : b.opens 0 ≡ true) (lost : (k : ℕ) → b.opens (suc k) ≡ false) where
  panics-answered :
      (o0 o1 o2 o3 o4 o5 : Option ℕ)
      → b.messages 0 queue_sms ≡ o0
      → b.messages 1 dl_queue_sms ≡ o1
      → b.messages 2 queue_email ≡ o2
      → b.messages 3 dl_queue_email ≡ o3
      → b.messages 4 queue_push ≡ o4
      → b.messages 5 dl_queue_push ≡ o5
      → panics (get_queue_depths b)
        ≡ not (answers o0 && (answers o1 && (answers o2 && (answers o3 && answers o4))))
  unfolding panics get_queue_depths inspect_all inspect_pair inspect reopen answers close_first
  panics-answered none o1 o2 o3 o4 o5 e0 e1 e2 e3 e4 e5 = rw (opens, e0, lost 0) refl
  panics-answered (some a) none o2 o3 o4 o5 e0 e1 e2 e3 e4 e5 = rw (opens, e0, e1, lost 0) refl
  panics-answered (some a) (some c) none o3 o4 o5 e0 e1 e2 e3 e4 e5 =
      rw (opens, e0, e1, e2, lost 0) refl
  panics-answered (some a) (some c) (some d) none o4 o5 e0 e1 e2 e3 e4 e5 =
      rw (opens, e0, e1, e2, e3, lost 0) refl
  panics-answered (some a) (some c) (some d) (some e) none o5 e0 e1 e2 e3 e4 e5 =
      rw (opens, e0, e1, e2, e3, e4, lost 0) refl
  panics-answered (some a) (some c) (some d) (some e) (some f) none e0 e1 e2 e3 e4 e5 =
      rw (opens, e0, e1, e2, e3, e4, e5) refl
  panics-answered (some a) (some c) (some d) (some e) (some f) (some g) e0 e1 e2 e3 e4 e5 =
      rw (opens, e0, e1, e2, e3, e4, e5) refl

  -- Where the broker opens the first channel and no other, the call panics if and only if one of the
  -- first five inspections fails.
  pub get_queue_depths-panics :
      panics (get_queue_depths b)
      ≡ not (
          answers (b.messages 0 queue_sms)
          && (answers (b.messages 1 dl_queue_sms)
              && (answers (b.messages 2 queue_email)
                  && (answers (b.messages 3 dl_queue_email) && answers (b.messages 4 queue_push)))))
  get_queue_depths-panics =
      panics-answered (b.messages 0 queue_sms) (b.messages 1 dl_queue_sms)
        (b.messages 2 queue_email) (b.messages 3 dl_queue_email) (b.messages 4 queue_push)
        (b.messages 5 dl_queue_push) refl refl refl refl refl refl
