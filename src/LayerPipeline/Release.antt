-- ===== src/LayerPipeline/Release.antt =====
-- The reorder gate of crates/quillcache-transfer-engine/src/slice_pool.rs.
use quillcache.Prelude.{
  ℕ, zero, suc, ◌+◌, ◌≤◌, ◌<◌, ◌≡◌, refl, sym, ap, ◌∙◌, ◌⊎◌, inl, inr, true, false, not, ◌&&◌, ◌||◌,
  List, [], ◌∷◌, ◌++◌, arith, ◌==◌, ==_iff, Bool-cases, length, length-keep-le,
}
use quillcache.LayerPipeline.{has, without, Pipeline, release}

-- The layers below a mark, in order.
unfoldable pub upto : ℕ → List ℕ
upto zero = []
upto (suc k) = upto k ++ k ∷ []

has-without : (i j : ℕ) (xs : List ℕ) → has i (without j xs) ≡ (has i xs && not (j == i))
has-without i j [] = refl
has-without i j (x ∷ xs) = ground (arith, has-without i j xs)

shorter : (i : ℕ) (xs : List ℕ) → has i xs ≡ true → length (without i xs) < length xs
shorter i [] e = absurd (ground (arith, e))
shorter i (x ∷ xs) e = ground (arith, shorter i xs, length-keep-le (λ y. not (y == i)) xs)

pub has-append : (i : ℕ) (xs ys : List ℕ) → has i (xs ++ ys) ≡ (has i xs || has i ys)
has-append i [] ys = refl
has-append i (x ∷ xs) ys = ground (arith, has-append i xs ys)

module _ {E : Type 0} where
  -- What the gate does to a state: it only moves layers from `done` to the notified ones, in order.
  pub record Gated (s s' : Pipeline E) : Type 0 where
    pub gap : has s'.watermark s'.done ≡ false
    pub order : s.notified ≡ upto s.watermark → s'.notified ≡ upto s'.watermark
    pub next_same : s'.next_idx ≡ s.next_idx
    pub flight_same : s'.in_flight ≡ s.in_flight
    pub err_same : s'.first_err ≡ s.first_err
    pub covers :
        (j : ℕ)
        → (j < s.watermark) ⊎ (has j s.done ≡ true)
        → (j < s'.watermark) ⊎ (has j s'.done ≡ true)
    pub within : (j : ℕ) → has j s'.done ≡ true → has j s.done ≡ true
    pub bounded :
        (b : ℕ) → s.watermark ≤ b → ((j : ℕ) → has j s.done ≡ true → j < b) → s'.watermark ≤ b

  upto_next :
      (s : Pipeline E)
      → s.notified ≡ upto s.watermark
      → s.notified ++ s.watermark ∷ [] ≡ upto (s.watermark + 1)
  upto_next s o =
      let one_more : suc s.watermark ≡ s.watermark + 1 = omega arith in
      let opened : upto (suc s.watermark) ≡ upto s.watermark ++ s.watermark ∷ [] =
        unfold upto in refl in
      ap (λ l. l ++ s.watermark ∷ []) o ∙ sym opened ∙ ap upto one_more

  covers_next :
      (s : Pipeline E) (j : ℕ)
      → (j < s.watermark) ⊎ (has j s.done ≡ true)
      → (j < s.watermark + 1) ⊎ (has j (without s.watermark s.done) ≡ true)
  covers_next s j (inl l) = inl (omega arith)
  covers_next s j (inr h) = elim (Bool-cases (s.watermark == j)) [
    | inl y ↦ inl (omega (arith, (==_iff s.watermark j).0 y))
    | inr n ↦ inr (has-without j s.watermark s.done ∙ rw (h, n) refl)
  ]

  pub release-Gated : (fuel : ℕ) (s : Pipeline E) → length s.done < fuel → Gated s (release fuel s)
  unfolding release
  release-Gated zero s lt = absurd (omega arith)
  release-Gated (suc fuel) s lt = elim (Bool-cases (has s.watermark s.done)) [
    | inr n ↦
        rw (n, release)
          (record {
            gap = n;
            order = λ o. o;
            next_same = refl;
            flight_same = refl;
            err_same = refl;
            covers = λ j c. c;
            within = λ j h. h;
            bounded = λ b l f. l;
          })
    | inl y ↦
        let s1 = record s {
          done = without s.watermark s.done;
          watermark = s.watermark + 1;
          notified = s.notified ++ s.watermark ∷ [];
        } in
        let less = shorter s.watermark s.done y in
        let g = release-Gated fuel s1 (omega (arith, less)) in
        rw (y, release)
          (record {
            gap = g.gap;
            order = λ o. g.order (upto_next s o);
            next_same = g.next_same;
            flight_same = g.flight_same;
            err_same = g.err_same;
            covers = λ j c. g.covers j (covers_next s j c);
            within = λ j h. ground (arith, g.within j h, has-without j s.watermark s.done);
            bounded = λ b l f.
                g.bounded b (omega (arith, f s.watermark y))
                  (λ j h. f j (ground (arith, has-without j s.watermark s.done)));
          })
  ]
