-- ===== src/LayerPipeline/Runs.antt =====
-- Whole runs of crates/quillcache-transfer-engine/src/slice_pool.rs: run_layers_with_notify from its
-- first tasks to the last completion.
use quillcache.Prelude.{
  ℕ, suc, ◌+◌, ◌-◌, ◌*◌, ◌≤◌, ◌<◌, max, ◌≡◌, refl, sym, ap, ◌∙◌, subst, inl, inr, true, ◌&&◌,
  false≢true, Option, none, List, [], ◌∷◌, ◌++◌, arith, ltb, if◌then◌else◌, ltb→lt, Bool-cases,
  length, length-append,
}
use quillcache.LayerPipeline.{
  has, Pipeline, is_healthy, first_of, launch, prime, start, release, refill, land, fail, Completes,
  landed, broke, Reached, primed, completed,
}
use quillcache.LayerPipeline.Release.{upto, release-Gated}
use quillcache.LayerPipeline.Valid.{Core, Busy, prime-Core, prime-Busy}
use quillcache.LayerPipeline.Order.{land-Core, fail-Core, split-length}

depth : (m : ℕ) → max m 1 ≡ suc (m - 1)
depth m = omega arith

module _ {E : Type 0} (n max_inflight : ℕ) where
  start-Core :
      Core {E = E} n (suc (max_inflight - 1)) (start n max_inflight)
      × Busy {E = E} n (start n max_inflight)
  unfolding start
  start-Core =
      let s : Pipeline E = record {
        next_idx = 0;
        in_flight = [];
        done = [];
        watermark = 0;
        notified = [];
        first_err = none;
      } in
      let c : Core n 0 s = record {
        order = unfold upto in refl;
        gap = λ h. refl;
        covered = λ h j l. absurd (omega arith);
        done_in = λ j d. absurd (ground (arith, d));
        flight_in = λ j f. absurd (ground (arith, f));
        mark_le = omega arith;
        next_le = omega arith;
        flight_le = omega arith;
      } in
      (
        subst (λ b. Core n b (prime n (max max_inflight 1) s)) (omega arith)
            (prime-Core n (max max_inflight 1) 0 s c),
        prime-Busy n (max max_inflight 1) s (inr (omega arith)),
      )

  Reached-Core :
      (s : Pipeline E) → Reached n max_inflight s → Core n (suc (max_inflight - 1)) s × Busy n s
  Reached-Core s primed = start-Core
  Reached-Core s' (completed s t r (landed s0 before after i q)) =
      land-Core n (max_inflight - 1) s (Reached-Core s r).0 before after i q
  Reached-Core s' (completed s t r (broke s0 before after i e q)) =
      fail-Core n (max_inflight - 1) s (Reached-Core s r).0 before after i q e

  -- In every state of a transfer of `n` layers, whatever the order in which its tasks complete or fail,
  -- the layers that were reported are 0, 1, 2 and so on up to a mark, in that order and each once, the
  -- mark is at most `n`, and at most `max_inflight` tasks, or one, are in flight.
  pub notified-in_order :
      (s : Pipeline E)
      → Reached n max_inflight s
      → (s.notified ≡ upto s.watermark)
        × (s.watermark ≤ n)
        × (length s.in_flight ≤ max max_inflight 1)
  notified-in_order s r =
      let (c, busy) = Reached-Core s r in
      (c.order, omega (arith, c.mark_le, c.next_le), omega (arith, c.flight_le, depth max_inflight))

  -- When no task is left and none has failed, every layer was reported, in order.
  pub all_notified :
      (s : Pipeline E)
      → Reached n max_inflight s
      → s.in_flight ≡ []
      → s.first_err ≡ none
      → s.notified ≡ upto n
  all_notified s r idle fine =
      let (c, busy) = Reached-Core s r in
      let healthy : is_healthy s.first_err ≡ true = ap is_healthy fine in
      let started : s.next_idx ≡ n = elim (Bool-cases (ltb s.next_idx n)) [
        | inl y ↦ absurd (omega (arith, busy healthy (ltb→lt s.next_idx n y), ap length idle))
        | inr m ↦ ground (arith, c.next_le)
      ] in
      let mark : s.watermark ≡ s.next_idx = elim (Bool-cases (ltb s.watermark s.next_idx)) [
        | inr m ↦ ground (arith, c.mark_le)
        | inl y ↦ elim (c.covered healthy s.watermark (ltb→lt s.watermark s.next_idx y)) [
          | inl below ↦ absurd (omega arith)
          | inr (inl d) ↦ absurd (false≢true (sym (c.gap healthy) ∙ d))
          | inr (inr f) ↦ absurd (ground (arith, sym (ap (has s.watermark) idle) ∙ f))
        ]
      ] in
      c.order ∙ ap upto (mark ∙ started)

-- What is left to do: tasks in flight, and twice the layers that are not started.
abbrev pub left_to_do : {E : Type 0} → ℕ → Pipeline E → ℕ
left_to_do n s = length s.in_flight + 2 * (n - s.next_idx)

module _ {E : Type 0} (n : ℕ) where
  refill-le : (s : Pipeline E) → left_to_do n (refill n s) ≤ left_to_do n s
  unfolding refill launch
  refill-le s = elim (Bool-cases (is_healthy s.first_err && ltb s.next_idx n)) [
    | inl y ↦
        let below : ltb s.next_idx n ≡ true = ground arith in
        rw (y, refill)
          (omega (arith, length-append s.in_flight (s.next_idx ∷ []), ltb→lt s.next_idx n below))
    | inr m ↦ rw (m, refill) (omega arith)
  ]

  land-lt :
      (s : Pipeline E) (before after : List ℕ) (i : ℕ)
      → s.in_flight ≡ before ++ i ∷ after
      → left_to_do n (land n i (before ++ after) s) < left_to_do n s
  unfolding land
  land-lt s before after i q = elim (Bool-cases (is_healthy s.first_err)) [
    | inl y ↦
        let s1 : Pipeline E = record s {
          in_flight = before ++ after;
          done = if has i s.done then s.done else i ∷ s.done;
        } in
        let rest : length s1.in_flight + 1 ≡ length s.in_flight =
          sym (ap length q ∙ split-length i before after) in
        let g = release-Gated (length s1.done + 1) s1 (omega arith) in
        let s2 = release (length s1.done + 1) s1 in
        let less : left_to_do n (refill n s2) < left_to_do n s =
          omega (arith, refill-le s2, ap length g.flight_same, g.next_same, rest) in
        rw (y, land) less
    | inr m ↦
        let s1 : Pipeline E = record s {
          in_flight = before ++ after;
          done = if has i s.done then s.done else i ∷ s.done;
        } in
        let rest : length s1.in_flight + 1 ≡ length s.in_flight =
          sym (ap length q ∙ split-length i before after) in
        let less : left_to_do n (refill n s1) < left_to_do n s =
          omega (arith, refill-le s1, rest) in
        rw (m, land) less
  ]

  fail-lt :
      (s : Pipeline E) (before after : List ℕ) (i : ℕ) (e : E)
      → s.in_flight ≡ before ++ i ∷ after
      → left_to_do n (fail n e (before ++ after) s) < left_to_do n s
  unfolding fail
  fail-lt s before after i e q =
      let failed : Option E = first_of s.first_err e in
      let rest : length (before ++ after) + 1 ≡ length s.in_flight =
        sym (ap length q ∙ split-length i before after) in
      omega (arith, refill-le (record s { in_flight = before ++ after; first_err = failed }), rest)

  -- Every completion, of a layer or of a failure, leaves less to do, so that a transfer has at most as
  -- many completions as there is to do when it starts.
  pub Completes-lt : (s s' : Pipeline E) → Completes n s s' → left_to_do n s' < left_to_do n s
  Completes-lt s s' (landed s0 before after i q) = land-lt s before after i q
  Completes-lt s s' (broke s0 before after i e q) = fail-lt s before after i e q
