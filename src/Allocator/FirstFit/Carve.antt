-- ===== src/Allocator/FirstFit/Carve.antt =====
-- What `allocate` does to a well-formed free list.
use quillcache.Prelude.{
  ℕ, suc, ◌+◌, ◌-◌, ◌%◌, ◌≤◌, ◌<◌, ◌≡◌, inl, inr, some, [], ◌∷◌, arith, ltb, leb, if◌then◌else◌,
  Bool-cases, u64_mod, u64_max,
}
use quillcache.Allocator.Ordered.{Regions, find_fit}
use quillcache.Allocator.FirstFit.{carve}
use quillcache.Allocator.FirstFit.Free.{
  Free, holds, free_at, total, Free-mono, find_fit-bounds, insert_key-front,
}

-- A region that does not fit is passed over.
pub carve_skip :
    (s o l p n hi : ℕ) (m : Regions)
    → Free (suc (p + n)) hi m
    → hi ≤ u64_max
    → 0 < s
    → find_fit s m ≡ some (o, l)
    → carve s o l ((p, n) ∷ m) ≡ (p, n) ∷ carve s o l m
unfolding carve
carve_skip s o l p n hi m f h z e = ground (arith, find_fit-bounds s (suc (p + n)) hi o l m f e)

-- A region that fits is shortened from its start, or dropped.
pub carve_here :
    (s p n lo hi : ℕ) (m : Regions)
    → Free lo hi ((p, n) ∷ m)
    → hi ≤ u64_max
    → 0 < s
    → s ≤ n
    → carve s p n ((p, n) ∷ m) ≡ (if ltb s n then (p + s, n - s) ∷ m else m)
unfolding carve
carve_here s p n lo hi m f h z e = ground (
  arith,
  insert_key-front ((p + s) % u64_mod) ((n + u64_mod - s) % u64_mod) (suc (p + n)) hi m f.3,
)

module _ (s hi : ℕ) (fits : hi ≤ u64_max) (positive : 0 < s) where
  pub carve-Free :
      (lo o l : ℕ) (m : Regions)
      → Free lo hi m
      → find_fit s m ≡ some (o, l)
      → Free lo hi (carve s o l m)
  unfolding find_fit
  carve-Free lo o l [] f e = cc
  carve-Free lo o l ((p, n) ∷ m) f e = elim (Bool-cases (leb s n)) [
    | inl here ↦
        let same : (p ≡ o) × (n ≡ l) = ground arith in
        rw (← same.0) (
          rw (← same.1) (
            rw (carve_here s p n lo hi m f fits positive (ground arith))
              (ground (arith, Free-mono (suc (p + n)) lo hi m))))
    | inr there ↦
        let e' : find_fit s m ≡ some (o, l) = ground arith in
        rw (carve_skip s o l p n hi m f.3 fits positive e')
          (f.0, f.1, f.2, carve-Free (suc (p + n)) o l m f.3 e')
  ]

  -- The bytes of the carved part, and only those, stop being free.
  pub carve-free_at :
      (lo o l : ℕ) (m : Regions) (b : ℕ)
      → Free lo hi m
      → find_fit s m ≡ some (o, l)
      → free_at (carve s o l m) b + holds o s b ≡ free_at m b
  unfolding find_fit free_at
  carve-free_at lo o l [] b f e = cc
  carve-free_at lo o l ((p, n) ∷ m) b f e = elim (Bool-cases (leb s n)) [
    | inl here ↦
        let same : (p ≡ o) × (n ≡ l) = ground arith in
        rw (← same.0) (
          rw (← same.1)
            (rw (carve_here s p n lo hi m f fits positive (ground arith)) (ground arith)))
    | inr there ↦
        let e' : find_fit s m ≡ some (o, l) = ground arith in
        rw (carve_skip s o l p n hi m f.3 fits positive e')
          (omega (arith, carve-free_at (suc (p + n)) o l m b f.3 e'))
  ]

  pub carve-total :
      (lo o l : ℕ) (m : Regions)
      → Free lo hi m
      → find_fit s m ≡ some (o, l)
      → total (carve s o l m) + s ≡ total m
  unfolding find_fit total
  carve-total lo o l [] f e = cc
  carve-total lo o l ((p, n) ∷ m) f e = elim (Bool-cases (leb s n)) [
    | inl here ↦
        let same : (p ≡ o) × (n ≡ l) = ground arith in
        rw (← same.0) (
          rw (← same.1)
            (rw (carve_here s p n lo hi m f fits positive (ground arith)) (ground arith)))
    | inr there ↦
        let e' : find_fit s m ≡ some (o, l) = ground arith in
        rw (carve_skip s o l p n hi m f.3 fits positive e')
          (omega (arith, carve-total (suc (p + n)) o l m f.3 e'))
  ]
