-- ===== src/Queue/Topology/Declaring/Ended.antt =====
-- How a sequence of declarations ends.
use notification_system.Base.{
  ℕ, zero, suc, ◌+◌, String, [], ◌∷◌, false, Option, none, some, ◌≡◌, refl, ◌∙◌, ap, arith, sym,
  subst,
}
use notification_system.Domain.Errors.{is_ok, Result, ok, err}
use notification_system.Queue.Topology.{Topology}
use notification_system.Queue.Topology.Declaring.{Declared, Step, and_then, declare, each}

unfoldable pub or_next : Option ℕ → Option ℕ → Option ℕ
or_next (some k) next = some k
or_next none next = next

or_next_assoc : (x y z : Option ℕ) → or_next x (or_next y z) ≡ or_next (or_next x y) z
unfolding or_next
or_next_assoc none y z = refl
or_next_assoc (some k) y z = refl

unfoldable pub refused_at : ℕ → Option String → Option ℕ
refused_at i none = none
refused_at i (some e) = some i

module _ (refuses : ℕ → Option String) where
  -- The first of `n` calls from the one of number `i` on that is refused.
  unfoldable pub first_refusal : ℕ → ℕ → Option ℕ
  first_refusal zero i = none
  first_refusal (suc n) i = or_next (refused_at i (refuses i)) (first_refusal n (suc i))

  first_refusal-add :
      (n m i : ℕ) → first_refusal (n + m) i ≡ or_next (first_refusal n i) (first_refusal m (i + n))
  unfolding first_refusal or_next
  first_refusal-add zero m i =
      let l : 0 + m ≡ m = omega arith in let r : i + 0 ≡ i = omega arith in rw (l, r) refl
  first_refusal-add (suc n) m i =
      let l : suc n + m ≡ suc (n + m) = omega arith in
      let r : suc i + n ≡ i + suc n = omega arith in
      ap (λ k. first_refusal k i) l
      ∙ ap (or_next (refused_at i (refuses i))) (first_refusal-add n m (suc i))
      ∙ rw r (
          or_next_assoc (refused_at i (refuses i)) (first_refusal n (suc i))
            (first_refusal m (i + suc n)))

-- How a step of `n` calls ends on `s`, by the first of them that is refused.
unfoldable pub Ended :
    Option ℕ → ℕ → (Topology → Topology) → Declared → Result (Unit {0}) × Declared → Type 0
Ended none n f s r = r ≡ (ok tt, record { calls = s.calls + n; topology = f s.topology })
Ended (some k) n f s r = (is_ok r.0 ≡ false) × (r.1.calls ≡ suc k)

module _ (refuses : ℕ → Option String) where
  abbrev pub Ends : ℕ → (Topology → Topology) → Step → Type 0
  Ends n f m = (s : Declared) → Ended (first_refusal refuses n s.calls) n f s (m s)

  declared :
      (what : String) (f : Topology → Topology) (s : Declared) (o : Option String)
      → refuses s.calls ≡ o
      → Ended (or_next (refused_at s.calls o) none) 1 f s (declare refuses what f s)
  unfolding Ended or_next refused_at declare is_ok
  declared what f s none e =
      rw (e, declare)
        (ap (λ k. (ok tt, record { calls = k; topology = f s.topology })) (omega arith))
  declared what f s (some m) e = (rw (e, declare) refl, rw (e, declare) refl)

  pub declare-Ends : (what : String) (f : Topology → Topology) → Ends 1 f (declare refuses what f)
  unfolding first_refusal
  declare-Ends what f s = declared what f s (refuses s.calls) refl

  Ended-later :
      (o : Option ℕ) (n m : ℕ) (f g : Topology → Topology) (s : Declared)
      (r : Result (Unit {0}) × Declared)
      → Ended o m g (record { calls = s.calls + n; topology = f s.topology }) r
      → Ended o (n + m) (λ t. g (f t)) s r
  unfolding Ended
  Ended-later none n m f g s r h =
      h ∙ ap (λ k. (ok tt, record { calls = k; topology = g (f s.topology) })) (omega arith)
  Ended-later (some k) n m f g s r h = h

  and_then-Ended :
      (o : Option ℕ) (n m : ℕ) (f g : Topology → Topology) (s : Declared) (b : Step)
      (r : Result (Unit {0}) × Declared)
      → Ended o n f s r
      → Ends m g b
      → Ended
          (or_next o (first_refusal refuses m (s.calls + n)))
          (n + m)
          (λ t. g (f t))
          s
          (and_then r b)
  unfolding Ended is_ok or_next
  and_then-Ended none n m f g s b r h q = rw h (
      Ended-later (first_refusal refuses m (s.calls + n)) n m f g s
        (b (record { calls = s.calls + n; topology = f s.topology }))
        (q (record { calls = s.calls + n; topology = f s.topology })))
  and_then-Ended (some k) n m f g s b (err e, s') h q = h
  and_then-Ended (some k) n m f g s b (ok u, s') h q = cc (h.0)

  pub and_then-Ends :
      (n m : ℕ) (f g : Topology → Topology) (a b : Step)
      → Ends n f a
      → Ends m g b
      → Ends (n + m) (λ t. g (f t)) (λ s. and_then (a s) b)
  and_then-Ends n m f g a b p q s =
      subst (λ o. Ended o (n + m) (λ t. g (f t)) s (and_then (a s) b))
        (sym (first_refusal-add refuses n m s.calls))
        (and_then-Ended (first_refusal refuses n s.calls) n m f g s b (a s) (p s) q)

  pub pair-Ends :
      (what what' : String) (f g : Topology → Topology)
      → Ends 2 (λ t. g (f t)) (λ s. and_then (declare refuses what f s) (declare refuses what' g))
  pair-Ends what what' f g =
      and_then-Ends 1 1 f g (declare refuses what f) (declare refuses what' g) (declare-Ends what f)
        (declare-Ends what' g)

  done-Ends : Ends 0 (λ t. t) (λ s. (ok tt, s))
  unfolding Ended first_refusal
  done-Ends s = ap (λ k. (ok tt, record { calls = k; topology = s.topology })) (omega arith)

  pub three-Ends {ℓ} :
      {A : Type ℓ} (step : A → Step) (f : A → Topology → Topology)
      → ((a : A) → Ends 2 (f a) (step a))
      → (a b c : A) → Ends 6 (λ t. f c (f b (f a t))) (each step (a ∷ b ∷ c ∷ []))
  unfolding each
  three-Ends step f p a b c =
      and_then-Ends 2 4 (f a) (λ t. f c (f b t)) (step a) (each step (b ∷ c ∷ [])) (p a)
        (and_then-Ends 2 2 (f b) (f c) (step b) (each step (c ∷ [])) (p b)
          (and_then-Ends 2 0 (f c) (λ t. t) (step c) (each step []) (p c) done-Ends))

  pub Ended-same :
      (o : Option ℕ) (n : ℕ) (f g : Topology → Topology) (s : Declared)
      (r : Result (Unit {0}) × Declared)
      → f s.topology ≡ g s.topology
      → Ended o n f s r
      → Ended o n g s r
  unfolding Ended
  Ended-same none n f g s r e h =
      h ∙ ap (λ t. (ok tt, record { calls = s.calls + n; topology = t })) e
  Ended-same (some k) n f g s r e h = h
