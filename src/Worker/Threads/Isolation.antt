-- ===== src/Worker/Threads/Isolation.antt =====
-- The states of an open circuit breaker that many workers share, and how their steps lead from one to
-- the next.
use notification_system.Base.{
  ℕ, suc, ◌==◌, ◌≤◌, true, false, ◌≡◌, ◌≢◌, length, arith, Bool-cases, inl, inr, ◌∙◌, sym, ap,
  ==_iff,
}
use notification_system.World.{World}
use notification_system.CircuitBreaker
use notification_system.CircuitBreaker.{CircuitBreaker, closed, opened, half_open}
use notification_system.CircuitBreaker.Recovery.{allow_half_open, allow_opened}
use notification_system.Worker.Threads.{Place}
use notification_system.Worker.Threads.System.{update, records}
use notification_system.Worker.Threads.Effects.{
  in_flight, Effect, aside, asks, posts, notes, records-in_flight,
}

update-same {ℓ} : {A : Type ℓ} (f : ℕ → A) (i : ℕ) (a : A) → update f i a i ≡ a
unfolding update
update-same f i a = ground arith

update-other {ℓ} : {A : Type ℓ} (f : ℕ → A) (i : ℕ) (a : A) {j : ℕ} → j ≢ i → update f i a j ≡ f j
unfolding update
update-other f i a {j} h = ground arith

-- No worker but `i` has been let through without an outcome yet.
abbrev pub Only : ℕ → (ℕ → Place) → Type 0
Only i place = (j : ℕ) → j ≢ i → in_flight (place j) ≡ false

-- No worker at all.
abbrev pub NoneInFlight : (ℕ → Place) → Type 0
NoneInFlight place = (j : ℕ) → in_flight (place j) ≡ false

pub update-NoneInFlight :
    (f : ℕ → Place) (i : ℕ) (p : Place)
    → NoneInFlight f
    → in_flight p ≡ false
    → NoneInFlight (update f i p)
unfolding update
update-NoneInFlight f i p h e j = elim (Bool-cases (i == j)) [
  | inl same ↦ rw same e
  | inr other ↦ rw other (h j)
]

update-Only :
    (k : ℕ) (f : ℕ → Place) (i : ℕ) (p : Place)
    → Only k f
    → (i ≢ k → in_flight p ≡ false)
    → Only k (update f i p)
unfolding update
update-Only k f i p h e j d = elim (Bool-cases (i == j)) [
  | inl same ↦ rw same (e (λ is. d (sym ((==_iff i j).0 same) ∙ is)))
  | inr other ↦ rw other (h j d)
]

NoneInFlight-Only : (f : ℕ → Place) (i : ℕ) (p : Place) → NoneInFlight f → Only i (update f i p)
NoneInFlight-Only f i p h j d = rw (update-other f i p d) (h j)

-- Who is in flight is the one who may be.
Only-eq : (i k : ℕ) (f : ℕ → Place) → Only k f → in_flight (f i) ≡ true → i ≡ k
Only-eq i k f h e = elim (Bool-cases (i == k)) [
  | inl same ↦ (==_iff i k).0 same
  | inr other ↦ let calm = h i (λ is. ground (arith, is, other)) in cc
]

-- How far an open breaker's probe has come, when `sent` requests had left before: none has been let
-- through; worker `i` may be on its way; worker `i` has sent, and its outcome is to be recorded.
pub data Phase (sent : ℕ) (w : World) (place : ℕ → Place) : Type 0 where
  shut :
      w.breaker.state ≡ opened → NoneInFlight place → length w.requests ≤ sent → Phase sent w place
  probing :
      (i : ℕ)
      → w.breaker.state ≡ half_open
      → Only i place
      → length w.requests ≤ sent
      → Phase sent w place
  probed :
      (i : ℕ)
      → w.breaker.state ≡ half_open
      → Only i place
      → records (place i) ≡ 1
      → length w.requests ≤ suc sent
      → Phase sent w place

-- A worker that takes its turn without being in flight, and is not afterwards.
pub calm-Phase :
    {sent : ℕ} {w w' : World} {place : ℕ → Place} (j : ℕ) (p : Place)
    → records (place j) ≡ 0
    → in_flight p ≡ false
    → w'.breaker.state ≡ w.breaker.state
    → w'.requests ≡ w.requests
    → Phase sent w place
    → Phase sent w' (update place j p)
calm-Phase {sent} {w} {w'} {place} j p z e b q (shut o h l) =
    shut (b ∙ o) (update-NoneInFlight place j p h e) (rw q l)
calm-Phase {sent} {w} {w'} {place} j p z e b q (probing i o h l) =
    probing i (b ∙ o) (update-Only i place j p h (λ d. e)) (rw q l)
calm-Phase {sent} {w} {w'} {place} j p z e b q (probed i o h r l) =
    probed i (b ∙ o) (update-Only i place j p h (λ d. e))
      (ap records
          (update-other place j p (λ is. let same = ap (λ k. records (place k)) is in omega arith))
        ∙ r)
      (rw q l)

-- The question to the breaker: half-open, it refuses; open, it refuses or lets this worker through.
asks-Phase :
    {sent : ℕ} {w w' : World} {place : ℕ → Place} (j : ℕ) (p : Place)
    → in_flight (place j) ≡ false
    → w'.breaker ≡ (CircuitBreaker.allow w.now w.breaker).0
    → w'.requests ≡ w.requests
    → in_flight p ≡ (CircuitBreaker.allow w.now w.breaker).1
    → Phase sent w place
    → Phase sent w' (update place j p)
asks-Phase {sent} {w} {w'} {place} j p f b q a (shut o h l) =
    elim (allow_opened w.now w.breaker o) [
      | inl (still, refused) ↦
          shut (rw b still) (update-NoneInFlight place j p h (a ∙ refused)) (rw q l)
      | inr (half, allowed) ↦ probing j (rw b half) (NoneInFlight-Only place j p h) (rw q l)
    ]
asks-Phase {sent} {w} {w'} {place} j p f b q a (probing i o h l) =
    let (half, refused) = allow_half_open w.now w.breaker o in
    probing i (rw b half) (update-Only i place j p h (λ d. a ∙ refused)) (rw q l)
asks-Phase {sent} {w} {w'} {place} j p f b q a (probed i o h r l) =
    let (half, refused) = allow_half_open w.now w.breaker o in
    let still = records-in_flight (place i) r in
    probed i (rw b half) (update-Only i place j p h (λ d. a ∙ refused))
      (ap records (update-other place j p (λ is. let same = ap (λ k. in_flight (place k)) is in cc))
        ∙ r)
      (rw q l)

-- The call of the provider: the one worker in flight makes it.
posts-Phase :
    {sent : ℕ} {w w' : World} {place : ℕ → Place} (j : ℕ) (p : Place)
    → in_flight (place j) ≡ true
    → records (place j) ≡ 0
    → records p ≡ 1
    → w'.breaker ≡ w.breaker
    → length w'.requests ≤ suc (length w.requests)
    → Phase sent w place
    → Phase sent w' (update place j p)
posts-Phase {sent} {w} {w'} {place} j p f z one b q (shut o h l) = let calm = h j in absurd cc
posts-Phase {sent} {w} {w'} {place} j p f z one b q (probing i o h l) =
    probed i (rw b o) (update-Only i place j p h (λ d. absurd (d (Only-eq j i place h f))))
      (rw (sym (Only-eq j i place h f), update-same place j p) one) (omega arith)
posts-Phase {sent} {w} {w'} {place} j p f z one b q (probed i o h r l) =
    let same = ap (λ k. records (place k)) (Only-eq j i place h f) in absurd (omega arith)

-- A step that neither asks nor sends.
aside-Phase :
    {sent : ℕ} {w w' : World} {place : ℕ → Place} (j : ℕ) (p : Place)
    → records (place j) ≡ 0
    → w'.breaker ≡ w.breaker
    → w'.requests ≡ w.requests
    → (in_flight (place j) ≡ false → in_flight p ≡ false)
    → Phase sent w place
    → Phase sent w' (update place j p)
aside-Phase {sent} {w} {w'} {place} j p z b q f h = elim (Bool-cases (in_flight (place j))) [
  | inr calm ↦ calm-Phase j p z (f calm) (ap (λ (k : CircuitBreaker). k.state) b) q h
  | inl flying ↦ in_turn flying h
]
  where
    in_turn : in_flight (place j) ≡ true → Phase sent w place → Phase sent w' (update place j p)
    in_turn e (shut o k l) = let calm = k j in absurd cc
    in_turn e (probing i o k l) =
        probing i (rw b o) (update-Only i place j p k (λ d. absurd (d (Only-eq j i place k e))))
          (rw q l)
    in_turn e (probed i o k r l) =
        let same = ap (λ m. records (place m)) (Only-eq j i place k e) in absurd (omega arith)

-- Any step of a worker that records no outcome.
pub Effect-Phase :
    {sent : ℕ} {w w' : World} {place : ℕ → Place} (j : ℕ) (p : Place)
    → records (place j) ≡ 0
    → Effect (place j) w p w'
    → Phase sent w place
    → Phase sent w' (update place j p)
Effect-Phase j p z (aside z' b q f) h = aside-Phase j p z b q f h
Effect-Phase j p z (asks f b q a) h = asks-Phase j p f b q a h
Effect-Phase j p z (posts f z' one b q) h = posts-Phase j p f z one b q h
Effect-Phase j p z (notes one) h = absurd (omega arith)

-- What the breaker and the requests do not notice.
pub same-Phase :
    {sent : ℕ} {w w' : World} {place : ℕ → Place}
    → w'.breaker ≡ w.breaker
    → w'.requests ≡ w.requests
    → Phase sent w place
    → Phase sent w' place
same-Phase b q (shut o h l) = shut (rw b o) h (rw q l)
same-Phase b q (probing i o h l) = probing i (rw b o) h (rw q l)
same-Phase b q (probed i o h r l) = probed i (rw b o) h r (rw q l)
