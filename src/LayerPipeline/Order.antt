-- ===== src/LayerPipeline/Order.antt =====
-- The order and the number of the notifications of crates/quillcache-transfer-engine/src/slice_pool.rs:
-- run_layers_with_notify, whatever the order in which its tasks complete.
use quillcache.Prelude.{
  ℕ, suc, ◌+◌, ◌≤◌, ◌<◌, ◌≡◌, refl, sym, ap, ◌∙◌, subst, ◌⊎◌, inl, inr, true, false, ◌||◌, Option,
  none, some, List, [], ◌∷◌, ◌++◌, arith, ◌==◌, if◌then◌else◌, ==_iff, Bool-cases, length,
}
use quillcache.LayerPipeline.{has, Pipeline, is_healthy, first_of, release, land, fail}
use quillcache.LayerPipeline.Release.{release-Gated}
use quillcache.LayerPipeline.Valid.{Core, Busy, refill-Core}

-- The tasks in flight, of which one completes.
split-has :
    (j i : ℕ) (before after : List ℕ)
    → has j (before ++ i ∷ after) ≡ ((i == j) || has j (before ++ after))
split-has j i [] after = ground arith
split-has j i (x ∷ before) after = ground (arith, split-has j i before after)

pub split-length :
    (i : ℕ) (before after : List ℕ) → length (before ++ i ∷ after) ≡ length (before ++ after) + 1
split-length i [] after = omega arith
split-length i (x ∷ before) after = omega (arith, split-length i before after)

own_done : (i : ℕ) (d : List ℕ) → has i (if has i d then d else i ∷ d) ≡ true
own_done i d = elim (Bool-cases (has i d)) [
  | inl y ↦ ap (λ b. has i (if b then d else i ∷ d)) y ∙ y
  | inr m ↦ ap (λ b. has i (if b then d else i ∷ d)) m ∙ rw ((==_iff i i).1 refl) refl
]

module _ {E : Type 0} (n : ℕ) where
  never_healthy : (o : Option E) (e : E) → is_healthy (first_of o e) ≡ false
  never_healthy none e = refl
  never_healthy (some e0) e = refl

  module _ (bound : ℕ) (s : Pipeline E) (c : Core n (suc bound) s) (before after : List ℕ) (i : ℕ)
      (q : s.in_flight ≡ before ++ i ∷ after) where
    in_rest : (j : ℕ) → has j s.in_flight ≡ ((i == j) || has j (before ++ after))
    in_rest j = ap (has j) q ∙ split-has j i before after

    rest_in : (j : ℕ) → has j (before ++ after) ≡ true → j < s.next_idx
    rest_in j h = c.flight_in j (in_rest j ∙ rw h (ground arith))

    own_in : i < s.next_idx
    own_in = c.flight_in i (in_rest i ∙ rw ((==_iff i i).1 refl) refl)

    rest_le : length (before ++ after) ≤ bound
    rest_le = omega (arith, ap length q, split-length i before after, c.flight_le)

    abbrev done_with : List ℕ
    done_with = if has i s.done then s.done else i ∷ s.done

    has-done_with : (j : ℕ) → has j done_with ≡ ((i == j) || has j s.done)
    has-done_with j = elim (Bool-cases (i == j)) [
      | inl y ↦
          subst (λ x. has x done_with ≡ ((i == x) || has x s.done)) ((==_iff i j).0 y)
            (own_done i s.done ∙ sym (ap (λ b. b || has i s.done) ((==_iff i i).1 refl)))
      | inr m ↦ ground arith
    ]

    done_with_in : (j : ℕ) → has j done_with ≡ true → j < s.next_idx
    done_with_in j h = elim (Bool-cases (i == j)) [
      | inl y ↦ omega (arith, own_in, (==_iff i j).0 y)
      | inr m ↦ c.done_in j (ground (arith, has-done_with j))
    ]

    abbrev arrived : Pipeline E
    arrived = record s { in_flight = before ++ after; done = done_with }

    -- A layer that lands while none has failed goes through the gate.
    gated-Core :
        is_healthy s.first_err ≡ true → Core n bound (release (length done_with + 1) arrived)
    gated-Core healthy =
        let g = release-Gated (length done_with + 1) arrived (omega arith) in
        record {
          order = g.order c.order;
          gap = λ h. g.gap;
          covered = λ h j l. elim (c.covered healthy j (omega (arith, l, g.next_same))) [
            | inl below ↦ later (g.covers j (inl below))
            | inr (inl d) ↦ later (g.covers j (inr (has-done_with j ∙ rw d (ground arith))))
            | inr (inr f) ↦ elim (Bool-cases (i == j)) [
              | inl y ↦ later (g.covers j (inr (has-done_with j ∙ rw y refl)))
              | inr m ↦ inr (inr (ap (has j) g.flight_same ∙ ground (arith, in_rest j)))
            ]
          ];
          done_in = λ j d. omega (arith, done_with_in j (g.within j d), g.next_same);
          flight_in =
              λ j f. omega (arith, rest_in j (sym (ap (has j) g.flight_same) ∙ f), g.next_same);
          mark_le = omega (arith, g.bounded s.next_idx c.mark_le done_with_in, g.next_same);
          next_le = omega (arith, c.next_le, g.next_same);
          flight_le = omega (arith, ap length g.flight_same, rest_le);
        }
      where
        later : {A B C : Type 0} → A ⊎ B → A ⊎ B ⊎ C
        later (inl a) = inl a
        later (inr b) = inr (inl b)

    -- After a failure, what lands is only noted, and what fails is dropped.
    stopped-Core :
        (done' : List ℕ) (e : Option E)
        → is_healthy e ≡ false
        → ((j : ℕ) → has j done' ≡ true → j < s.next_idx)
        → Core n bound (record s { in_flight = before ++ after; done = done'; first_err = e })
    stopped-Core done' e failed f = record {
      order = c.order;
      gap = λ h. absurd (ground arith);
      covered = λ h j l. absurd (ground arith);
      done_in = f;
      flight_in = rest_in;
      mark_le = c.mark_le;
      next_le = c.next_le;
      flight_le = rest_le;
    }

    pub land-Core :
        Core n (suc bound) (land n i (before ++ after) s) × Busy n (land n i (before ++ after) s)
    unfolding land
    land-Core = elim (Bool-cases (is_healthy s.first_err)) [
      | inl y ↦
          rw (y, land) (refill-Core n bound (release (length done_with + 1) arrived) (gated-Core y))
      | inr m ↦
          rw (m, land)
            (refill-Core n bound arrived (stopped-Core done_with s.first_err m done_with_in))
    ]

    pub fail-Core :
        (e : E)
        → Core n (suc bound) (fail n e (before ++ after) s) × Busy n (fail n e (before ++ after) s)
    unfolding fail
    fail-Core e =
        refill-Core n bound
          (record s { in_flight = before ++ after; first_err = first_of s.first_err e })
          (stopped-Core s.done (first_of s.first_err e) (never_healthy s.first_err e) c.done_in)
