-- ===== src/Api/Metrics/Latency.antt =====
-- `getLatency`. The floating point numbers and PostgreSQL's aggregates are parameters; the aggregates
-- are never NULL here, so that the scanning of a line does not fail.
use mathlib.Core.Option
use notification_system.Base.{
  ℕ, String, List, [], ◌∷◌, Option, none, some, ◌≡◌, refl, sym, ◌∙◌, ap, arith, eq_iff, eq_refl,
  str_eq, take, if◌then◌else◌, Bool-cases, inl, inr,
}
use notification_system.Base.Dict.{Dict, get, put, get-put}
use notification_system.Domain.Notification.{Notification}
use notification_system.World.{Env, World, Verdict, answered, refused, unread, call}

-- When a notification was sent, and when it was created.
pub record Span : Type 0 where
  pub sent : ℕ
  pub created : ℕ

pub record LatencyMetrics {ℓ} (F : Type ℓ) : Type ℓ where
  pub avg_seconds : F
  pub max_seconds : F
  pub min_seconds : F

-- AVG, MAX and MIN of `EXTRACT(EPOCH FROM (sent_at - created_at))`.
pub record Aggregates {ℓ} (F : Type ℓ) : Type ℓ where
  pub avg : List Span → F
  pub max : List Span → F
  pub min : List Span → F

abbrev or_nil : Option (List Span) → List Span
or_nil none = []
or_nil (some spans) = spans

-- `WHERE sent_at IS NOT NULL GROUP BY channel`: a row goes to its channel's group.
unfoldable pub add_sent : Notification → Option ℕ → Dict (List Span) → Dict (List Span)
add_sent n none lines = lines
add_sent n (some t) lines =
    put n.channel (record { sent = t; created = n.created_at } ∷ or_nil (get n.channel lines)) lines

unfoldable pub sent_groups : List Notification → Dict (List Span)
sent_groups [] = []
sent_groups (n ∷ rows) = add_sent n n.sent_at (sent_groups rows)

unfoldable pub latency_of {ℓ} : {F : Type ℓ} → Aggregates F → List Span → LatencyMetrics F
latency_of agg spans = record {
  avg_seconds = agg.avg spans;
  max_seconds = agg.max spans;
  min_seconds = agg.min spans;
}

-- The loop over the lines.
unfoldable pub put_latencies {ℓ} :
    {F : Type ℓ}
    → Aggregates F
    → Dict (LatencyMetrics F)
    → Dict (List Span)
    → Dict (LatencyMetrics F)
put_latencies agg result [] = result
put_latencies agg result ((channel, spans) ∷ lines) =
    put_latencies agg (put channel (latency_of agg spans) result) lines

-- Where the connection breaks while the lines are read, `fetched` of them have come, and the loop
-- ends as if they were all.
unfoldable pub latency_after {ℓ} :
    {F : Type ℓ} → Aggregates F → ℕ → Verdict × World → Dict (LatencyMetrics F) × World
latency_after agg fetched (refused m, w) = ([], w)
latency_after agg fetched (answered, w) = (put_latencies agg [] (sent_groups w.rows), w)
latency_after agg fetched (unread m, w) =
    (put_latencies agg [] (take fetched (sent_groups w.rows)), w)

unfoldable pub get_latency {ℓ} :
    {F : Type ℓ} → Aggregates F → Env → ℕ → World → Dict (LatencyMetrics F) × World
unfolding latency_after
get_latency agg env fetched w = latency_after agg fetched (call env w)

-- The spans of a channel's sent rows, in the table's order.
abbrev pub spans_of : String → List Notification → List Span
spans_of c [] = []
spans_of c (n ∷ rows) = elim n.sent_at [
  | none ↦ spans_of c rows
  | some t ↦
      if str_eq n.channel c
      then record { sent = t; created = n.created_at } ∷ spans_of c rows
      else spans_of c rows
]

-- No two lines are of one channel.
Distinct : Dict (List Span) → Type 0
Distinct [] = Unit
Distinct ((c, spans) ∷ lines) = (get c lines ≡ none) × Distinct lines

put-Distinct :
    (c : String) (spans : List Span) (lines : Dict (List Span))
    → Distinct lines
    → Distinct (put c spans lines)
unfolding Distinct put get
put-Distinct c spans [] d = (refl, tt)
put-Distinct c spans ((k, v) ∷ lines) (fresh, d) = elim (Bool-cases (str_eq k c)) [
  | inl e ↦ rw e (ap (λ s. get s lines) (sym ((eq_iff k c).0 e)) ∙ fresh, d)
  | inr e ↦ rw e (
    ground (arith, eq_iff c k, eq_iff k c, get-put c k spans lines),
    put-Distinct c spans lines d,
  )
]

add_sent-Distinct :
    (n : Notification) (o : Option ℕ) (lines : Dict (List Span))
    → Distinct lines
    → Distinct (add_sent n o lines)
unfolding add_sent
add_sent-Distinct n none lines d = d
add_sent-Distinct n (some t) lines d = put-Distinct n.channel _ lines d

sent_groups-Distinct : (rows : List Notification) → Distinct (sent_groups rows)
unfolding sent_groups Distinct
sent_groups-Distinct [] = tt
sent_groups-Distinct (n ∷ rows) =
    add_sent-Distinct n n.sent_at (sent_groups rows) (sent_groups-Distinct rows)

-- A group that is empty has no line.
abbrev pub line : List Span → Option (List Span)
line [] = none
line (s ∷ spans) = some (s ∷ spans)

or_nil-line : (l : List Span) → or_nil (line l) ≡ l
or_nil-line [] = refl
or_nil-line (s ∷ l) = refl

get-add_sent :
    (c : String) (n : Notification) (o : Option ℕ) (rows : List Notification)
    → n.sent_at ≡ o
    → ((k : String) → get k (sent_groups rows) ≡ line (spans_of k rows))
    → get c (add_sent n o (sent_groups rows)) ≡ line (spans_of c (n ∷ rows))
unfolding add_sent
get-add_sent c n none rows e ih = rw e (ih c)
get-add_sent c n (some t) rows e ih =
    get-put n.channel c _ (sent_groups rows) ∙ (elim (Bool-cases (str_eq n.channel c)) [
      | inl same ↦
          rw (e, same, (eq_iff n.channel c).0 same, ih c)
            (ap (λ l. some (record { sent = t; created = n.created_at } ∷ l))
              (or_nil-line (spans_of c rows)))
      | inr other ↦ rw (e, other) (ih c)
    ])

get-sent_groups :
    (c : String) (rows : List Notification) → get c (sent_groups rows) ≡ line (spans_of c rows)
unfolding get sent_groups
get-sent_groups c [] = refl
get-sent_groups c (n ∷ rows) = get-add_sent c n n.sent_at rows refl (λ k. get-sent_groups k rows)

module _ {ℓ} {F : Type ℓ} (agg : Aggregates F) where
  -- The map's entry of a channel, from its line, or from what was there before.
  entry_or : Option (List Span) → Option (LatencyMetrics F) → Option (LatencyMetrics F)
  entry_or none before = before
  entry_or (some spans) before = some (latency_of agg spans)

  get-put_latencies :
      (c : String) (lines : Dict (List Span)) (result : Dict (LatencyMetrics F))
      → Distinct lines
      → get c (put_latencies agg result lines) ≡ entry_or (get c lines) (get c result)
  unfolding put_latencies get Distinct entry_or
  get-put_latencies c [] result d = refl
  get-put_latencies c ((k, spans) ∷ lines) result (fresh, d) =
      get-put_latencies c lines (put k (latency_of agg spans) result) d
      ∙ (elim (Bool-cases (str_eq k c)) [
        | inl same ↦
            rw (same, sym ((eq_iff k c).0 same), fresh)
              (get-put k k (latency_of agg spans) result ∙ rw (eq_refl k) refl)
        | inr other ↦ rw (other, get-put k c (latency_of agg spans) result, other) refl
      ])

-- The latency of a channel: AVG, MAX and MIN of exactly its rows that have been sent, where one has,
-- and no entry where none has, when the call is answered.
pub latency_complete {ℓ} :
    {F : Type ℓ} (agg : Aggregates F) (env : Env) (fetched : ℕ) (w w' : World)
    → call env w ≡ (answered, w')
    → (c : String)
    → get c (get_latency agg env fetched w).0
      ≡ Option.map (latency_of agg) (line (spans_of c w'.rows))
unfolding get_latency latency_after get entry_or
latency_complete agg env fetched w w' answer c = rw answer (
    get-put_latencies agg c (sent_groups w'.rows) [] (sent_groups-Distinct w'.rows)
    ∙ rw (get-sent_groups c w'.rows) (entry_or-none (line (spans_of c w'.rows))))
  where
    entry_or-none : (o : Option (List Span)) → entry_or agg o none ≡ Option.map (latency_of agg) o
    entry_or-none none = refl
    entry_or-none (some spans) = refl
