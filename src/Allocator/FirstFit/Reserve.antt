-- ===== src/Allocator/FirstFit/Reserve.antt =====
-- What `reserve` does to a well-formed free list, and when it succeeds.
use quillcache.Prelude.{
  ℕ, suc, ◌+◌, ◌-◌, ◌≤◌, ◌<◌, ◌≡◌, ◌⊎◌, inl, inr, some, [], ◌∷◌, arith, ltb, if◌then◌else◌, u64_max,
}
use quillcache.Allocator.Ordered.{Regions, last_upto}
use quillcache.Allocator.FirstFit.{cut}
use quillcache.Allocator.FirstFit.Free.{
  Free, holds, free_at, total, Free-mono, insert_key-front, last_upto-bounds,
}

-- The parts of the region `(o, l)` before `offset` and after `end`, in front of the rest.
abbrev pieces : ℕ → ℕ → ℕ → ℕ → Regions → Regions
pieces offset end o l m =
    let after = if ltb end (o + l) then (end, o + l - end) ∷ m else m in
    if ltb o offset then (o, offset - o) ∷ after else after

module _ (offset size hi : ℕ) (fits : hi ≤ u64_max) (positive : 0 < size) where
  cut_here :
      (p n lo : ℕ) (m : Regions)
      → Free lo hi ((p, n) ∷ m)
      → p ≤ offset
      → offset + size ≤ p + n
      → cut offset (offset + size) p n ((p, n) ∷ m) ≡ pieces offset (offset + size) p n m
  unfolding cut
  cut_here p n lo m f h k = ground (
    arith,
    insert_key-front p (offset - p) (suc (p + n)) hi m f.3,
    insert_key-front (offset + size) (p + n - (offset + size)) (suc (p + n)) hi m f.3,
  )

  cut_skip :
      (p n o l : ℕ) (m : Regions)
      → Free (suc (p + n)) hi m
      → last_upto offset m ≡ some (o, l)
      → offset + size ≤ o + l
      → cut offset (offset + size) o l ((p, n) ∷ m) ≡ (p, n) ∷ cut offset (offset + size) o l m
  unfolding cut
  cut_skip p n o l m f e k = ground (arith, last_upto-bounds offset (suc (p + n)) hi o l m f e)

  -- Where `last_upto` finds a region, it is the first of the list or one of the rest.
  abbrev Place : ℕ → ℕ → ℕ → ℕ → Regions → Type 0
  Place p n o l m = ((p ≡ o) × (n ≡ l)) ⊎ (last_upto offset m ≡ some (o, l))

  place :
      (p n o l : ℕ) (m : Regions) → last_upto offset ((p, n) ∷ m) ≡ some (o, l) → Place p n o l m
  unfolding last_upto
  place p n o l m e = ground arith

  module _ {ℓ} (Q : ℕ → Regions → Regions → Type ℓ)
      (here : (lo p n : ℕ) (m : Regions)
        → Free lo hi ((p, n) ∷ m)
        → p ≤ offset
        → offset + size ≤ p + n
        → Q lo ((p, n) ∷ m) (pieces offset (offset + size) p n m))
      (there : (lo p n : ℕ) (m m' : Regions)
        → Free lo hi ((p, n) ∷ m)
        → Q (suc (p + n)) m m'
        → Q lo ((p, n) ∷ m) ((p, n) ∷ m')) where
    -- Induction to the region that is cut.
    cut_induction :
        (lo o l : ℕ) (m : Regions)
        → Free lo hi m
        → last_upto offset m ≡ some (o, l)
        → offset + size ≤ o + l
        → Q lo m (cut offset (offset + size) o l m)
    unfolding last_upto
    cut_induction lo o l [] f e k = cc
    cut_induction lo o l ((p, n) ∷ m) f e k = elim (place p n o l m e) [
      | inl same ↦
          let at : p ≤ offset = ground arith in
          rw (← same.0) (
            rw (← same.1)
              (rw (cut_here p n lo m f at (ground arith)) (here lo p n m f at (ground arith))))
      | inr e' ↦
          rw (cut_skip p n o l m f.3 e' k)
            (there lo p n m _ f (cut_induction (suc (p + n)) o l m f.3 e' k))
    ]

  pub cut-Free :
      (lo o l : ℕ) (m : Regions)
      → Free lo hi m
      → last_upto offset m ≡ some (o, l)
      → offset + size ≤ o + l
      → Free lo hi (cut offset (offset + size) o l m)
  cut-Free =
      cut_induction (λ lo m m'. Free lo hi m')
        (λ lo p n m f at inside.
          ground
            (arith, Free-mono (suc (p + n)) lo hi m, Free-mono (suc (p + n)) (suc offset) hi m))
        (λ lo p n m m' f q. (f.0, f.1, f.2, q))

  -- The bytes of the reserved range, and only those, stop being free.
  pub cut-free_at :
      (b lo o l : ℕ) (m : Regions)
      → Free lo hi m
      → last_upto offset m ≡ some (o, l)
      → offset + size ≤ o + l
      → free_at (cut offset (offset + size) o l m) b + holds offset size b ≡ free_at m b
  unfolding free_at
  cut-free_at b =
      cut_induction (λ lo m m'. free_at m' b + holds offset size b ≡ free_at m b)
        (λ lo p n m f at inside. ground arith) (λ lo p n m m' f q. omega arith)

  pub cut-total :
      (lo o l : ℕ) (m : Regions)
      → Free lo hi m
      → last_upto offset m ≡ some (o, l)
      → offset + size ≤ o + l
      → total (cut offset (offset + size) o l m) + size ≡ total m
  unfolding total
  cut-total =
      cut_induction (λ lo m m'. total m' + size ≡ total m) (λ lo p n m f at inside. ground arith)
        (λ lo p n m m' f q. omega arith)
