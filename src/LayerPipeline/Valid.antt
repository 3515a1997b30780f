-- ===== src/LayerPipeline/Valid.antt =====
-- What holds of the pipeline of crates/quillcache-transfer-engine/src/slice_pool.rs between completions.
use quillcache.Prelude.{
  ℕ, zero, suc, ◌+◌, ◌≤◌, ◌<◌, ◌≡◌, refl, ◌∙◌, subst, ◌⊎◌, inl, inr, true, false, ◌&&◌, [], ◌∷◌,
  arith, ltb, ◌==◌, ==_iff, Bool-cases, length, length-append,
}
use quillcache.LayerPipeline.{has, Pipeline, is_healthy, launch, prime, refill}
use quillcache.LayerPipeline.Release.{upto, has-append}

module _ {E : Type 0} (n : ℕ) where
  -- At most `bound` tasks are in flight.
  pub record Core (bound : ℕ) (s : Pipeline E) : Type 0 where
    pub order : s.notified ≡ upto s.watermark
    pub gap : is_healthy s.first_err ≡ true → has s.watermark s.done ≡ false
    pub covered :
        is_healthy s.first_err ≡ true
        → (j : ℕ) → j < s.next_idx
        → (j < s.watermark) ⊎ (has j s.done ≡ true) ⊎ (has j s.in_flight ≡ true)
    pub done_in : (j : ℕ) → has j s.done ≡ true → j < s.next_idx
    pub flight_in : (j : ℕ) → has j s.in_flight ≡ true → j < s.next_idx
    pub mark_le : s.watermark ≤ s.next_idx
    pub next_le : s.next_idx ≤ n
    pub flight_le : length s.in_flight ≤ bound

  launch-Core :
      (bound : ℕ) (s : Pipeline E) → Core bound s → s.next_idx < n → Core (suc bound) (launch s)
  unfolding launch
  launch-Core bound s c lt = record {
    order = c.order;
    gap = c.gap;
    covered = λ h j l. elim (Bool-cases (s.next_idx == j)) [
      | inl y ↦ inr (inr (has-append j s.in_flight (s.next_idx ∷ []) ∙ rw y (ground arith)))
      | inr m ↦ elim (c.covered h j (ground (arith, l))) [
        | inl below ↦ inl below
        | inr (inl d) ↦ inr (inl d)
        | inr (inr f) ↦ inr (inr (has-append j s.in_flight (s.next_idx ∷ []) ∙ rw f refl))
      ]
    ];
    done_in = λ j d. omega (arith, c.done_in j d);
    flight_in = λ j f. elim (Bool-cases (s.next_idx == j)) [
      | inl y ↦ omega (arith, (==_iff s.next_idx j).0 y)
      | inr m ↦
          let old : has j s.in_flight ≡ true =
            ground (arith, has-append j s.in_flight (s.next_idx ∷ [])) in
          omega (arith, c.flight_in j old)
    ];
    mark_le = omega (arith, c.mark_le);
    next_le = omega (arith, lt);
    flight_le = omega (arith, length-append s.in_flight (s.next_idx ∷ []), c.flight_le);
  }

  Core-le : (a b : ℕ) (s : Pipeline E) → a ≤ b → Core a s → Core b s
  Core-le a b s le c = record {
    order = c.order;
    gap = c.gap;
    covered = c.covered;
    done_in = c.done_in;
    flight_in = c.flight_in;
    mark_le = c.mark_le;
    next_le = c.next_le;
    flight_le = omega (arith, c.flight_le);
  }

  pub prime-Core :
      (room bound : ℕ) (s : Pipeline E) → Core bound s → Core (bound + room) (prime n room s)
  unfolding prime
  prime-Core zero bound s c = Core-le bound (bound + 0) s (omega arith) c
  prime-Core (suc room) bound s c = elim (Bool-cases (ltb s.next_idx n)) [
    | inl y ↦
        rw (y, prime)
          (subst (λ b. Core b (prime n room (launch s))) (omega arith)
            (prime-Core room (suc bound) (launch s) (launch-Core bound s c (ground arith))))
    | inr m ↦ rw (m, prime) (Core-le bound (bound + suc room) s (omega arith) c)
  ]

  -- While there are layers to start and none has failed, some task is in flight.
  abbrev pub Busy : Pipeline E → Type 0
  Busy s = is_healthy s.first_err ≡ true → s.next_idx < n → 1 ≤ length s.in_flight

  launch-flight : (s : Pipeline E) → 1 ≤ length (launch s).in_flight
  unfolding launch
  launch-flight s = omega (arith, length-append s.in_flight (s.next_idx ∷ []))

  pub prime-Busy :
      (room : ℕ) (s : Pipeline E) → (1 ≤ length s.in_flight) ⊎ (1 ≤ room) → Busy (prime n room s)
  unfolding prime
  prime-Busy zero s (inl f) = λ h l. f
  prime-Busy zero s (inr f) = absurd (omega arith)
  prime-Busy (suc room) s f = elim (Bool-cases (ltb s.next_idx n)) [
    | inl y ↦ rw (y, prime) (prime-Busy room (launch s) (inl (launch-flight s)))
    | inr m ↦ rw (m, prime) (λ h l. absurd (ground arith))
  ]

  pub refill-Core :
      (bound : ℕ) (s : Pipeline E)
      → Core bound s
      → Core (suc bound) (refill n s) × Busy (refill n s)
  unfolding refill
  refill-Core bound s c = elim (Bool-cases (is_healthy s.first_err && ltb s.next_idx n)) [
    | inl y ↦ rw (y, refill) (launch-Core bound s c (ground arith), λ h l. launch-flight s)
    | inr m ↦
        rw (m, refill) (Core-le bound (suc bound) s (omega arith) c, λ h l. absurd (ground arith))
  ]
