-- ===== src/Allocator/FirstFit/Release.antt =====
-- What `deallocate` does to a well-formed free list, against a one-pass reference.
use quillcache.Prelude.{
  ℕ, suc, ◌+◌, ◌-◌, ◌≤◌, ◌<◌, ◌≡◌, subst, ◌⊎◌, inl, inr, some, [], ◌∷◌, arith, ltb, leb, ◌==◌,
  if◌then◌else◌, ltb→lt, leb→le, ==_iff, Bool-cases, Option-cases, u64_max,
}
use quillcache.Allocator.Ordered.{Regions, remove_key, find_fit, last_below}
use quillcache.Allocator.FirstFit.{carve, give_next, give_back}
use quillcache.Allocator.FirstFit.Carve.{carve_here, carve_skip}
use quillcache.Allocator.FirstFit.Free.{
  Free, remove_key-Free, holds, free_at, total, find_fit-bounds, insert_key-front,
  last_below-bounds, last_below-none, first_from-bounds,
}

-- A free region that starts where the returned one ends is joined to it.
abbrev join_next : ℕ → ℕ → Regions → Regions
join_next start size [] = (start, size) ∷ []
join_next start size ((o, l) ∷ m) =
    if start + size == o then (start, size + l) ∷ m else (start, size) ∷ (o, l) ∷ m

-- The reference: walk to the place of the returned range, and join it there on both sides.
unfoldable pub release : ℕ → ℕ → Regions → Regions
release offset size [] = (offset, size) ∷ []
release offset size ((o, l) ∷ m) =
    if ltb (o + l) offset
    then (o, l) ∷ release offset size m
    else if o + l == offset
    then join_next o (l + size) m
    else join_next offset size ((o, l) ∷ m)

-- The range `[offset, offset + size)` meets no region.
abbrev pub Apart : ℕ → ℕ → Regions → Type 0
Apart offset size [] = Unit {0}
Apart offset size ((o, l) ∷ m) = ((o + l ≤ offset) ⊎ (offset + size ≤ o)) × Apart offset size m

module _ (hi : ℕ) (fits : hi ≤ u64_max) where
  give_next_skip :
      (start end p n : ℕ) (m : Regions)
      → Free (suc (p + n)) hi m
      → p < start
      → p < end
      → give_next start end ((p, n) ∷ m) ≡ (p, n) ∷ give_next start end m
  unfolding give_next
  give_next_skip start end p n m f h k = ground (arith, first_from-bounds end (suc (p + n)) hi)

  give_next_join :
      (start size : ℕ) (m : Regions)
      → Free (start + size) hi m
      → 0 < size
      → start + size ≤ hi
      → give_next start (start + size) m ≡ join_next start size m
  unfolding give_next
  give_next_join start size [] f h j = ground arith
  give_next_join start size ((o, l) ∷ m) f h j = ground (
    arith,
    insert_key-front start size (start + size) hi ((o, l) ∷ m) f,
    insert_key-front start (size + l) (suc (o + l)) hi m f.3,
  )

  give_back_skip :
      (offset size p n : ℕ) (m : Regions)
      → Free (suc (p + n)) hi m
      → offset + size ≤ hi
      → 0 < n
      → 0 < size
      → p + n < offset
      → give_back offset size ((p, n) ∷ m) ≡ (p, n) ∷ give_back offset size m
  unfolding give_back
  give_back_skip offset size p n m f b z y h = elim (Option-cases (last_below offset m)) [
    | inl e ↦ ground (arith, give_next_skip offset (offset + size) p n m f)
    | inr ((q, k), e) ↦
        let r = last_below-bounds offset (suc (p + n)) hi q k m f e in
        ground (
          arith,
          give_next_skip offset (offset + size) p n m f,
          give_next_skip q (offset + size) p n (remove_key q m)
              (remove_key-Free q (suc (p + n)) hi m f),
        )
  ]

  Free-eq : (a b : ℕ) (m : Regions) → a ≡ b → Free a hi m → Free b hi m
  Free-eq a b m e = subst (λ k. Free k hi m) e

  Apart-Free :
      (offset size lo : ℕ) (m : Regions)
      → Free lo hi m
      → offset ≤ lo
      → Apart offset size m
      → Free (offset + size) hi m
  Apart-Free offset size lo [] f h a = tt
  Apart-Free offset size lo ((o, l) ∷ m) f h a = (ground arith, f.1, f.2, f.3)

  -- `deallocate` walks the ordered map by three lookups; the result is the one-pass join.
  pub give_back-eq-release :
      (offset size lo : ℕ) (m : Regions)
      → Free lo hi m
      → Apart offset size m
      → 0 < size
      → offset + size ≤ hi
      → give_back offset size m ≡ release offset size m
  unfolding give_back release
  give_back-eq-release offset size lo [] f a z h = ground arith
  give_back-eq-release offset size lo ((p, n) ∷ m) f a z h =
      elim (Bool-cases (ltb (p + n) offset)) [
        | inl before ↦
            rw (give_back_skip offset size p n m f.3 h f.1 z (ltb→lt _ _ before))
              (ground (arith, give_back-eq-release offset size (suc (p + n)) m f.3 a.1 z h))
        | inr past ↦ elim (Bool-cases (p + n == offset)) [
          | inl touches ↦ ground (
            arith,
            last_below-none offset (suc (p + n)) hi m f.3,
            give_next_join p (n + size) m (
                Free-eq (offset + size) (p + (n + size)) m (omega (arith, (==_iff _ _).0 touches))
                  (Apart-Free offset size (suc (p + n)) m f.3 (ground arith) a.1)),
          )
          | inr beyond ↦ ground (
            arith,
            last_below-none offset offset hi ((p, n) ∷ m),
            give_next_join offset size ((p, n) ∷ m) (ground arith),
          )
        ]
      ]

  join_next-Free :
      (offset size lo : ℕ) (m : Regions)
      → lo ≤ offset
      → 0 < size
      → offset + size ≤ hi
      → Free (offset + size) hi m
      → Free lo hi (join_next offset size m)
  join_next-Free offset size lo [] h z j f = (h, z, j, tt)
  join_next-Free offset size lo ((o, l) ∷ m) h z j f =
      ground (arith, Free-eq (suc (o + l)) (suc (offset + (size + l))) m)

  -- The list stays well formed.
  pub release-Free :
      (offset size lo : ℕ) (m : Regions)
      → Free lo hi m
      → Apart offset size m
      → lo ≤ offset
      → 0 < size
      → offset + size ≤ hi
      → Free lo hi (release offset size m)
  unfolding release
  release-Free offset size lo [] f a g z h = (g, z, h, tt)
  release-Free offset size lo ((p, n) ∷ m) f a g z h = elim (Bool-cases (ltb (p + n) offset)) [
    | inl before ↦
        rw before
          (f.0, f.1, f.2, release-Free offset size (suc (p + n)) m f.3 a.1 (ltb→lt _ _ before) z h)
    | inr past ↦ elim (Bool-cases (p + n == offset)) [
      | inl touches ↦
          rw (past, touches)
            (join_next-Free p (n + size) lo m f.0 (omega arith)
              (omega (arith, (==_iff _ _).0 touches))
              (Free-eq (offset + size) (p + (n + size)) m (omega (arith, (==_iff _ _).0 touches))
                (Apart-Free offset size (suc (p + n)) m f.3 (ground arith) a.1)))
      | inr beyond ↦
          rw (past, beyond) (join_next-Free offset size lo ((p, n) ∷ m) g z h (ground arith))
    ]
  ]

join_next-free_at :
    (offset size b : ℕ) (m : Regions)
    → free_at (join_next offset size m) b ≡ free_at m b + holds offset size b
unfolding free_at
join_next-free_at offset size b [] = ground arith
join_next-free_at offset size b ((o, l) ∷ m) = ground arith

-- The bytes of the returned range, and only those, become free.
pub release-free_at :
    (offset size b : ℕ) (m : Regions)
    → free_at (release offset size m) b ≡ free_at m b + holds offset size b
unfolding release free_at
release-free_at offset size b [] = ground arith
release-free_at offset size b ((p, n) ∷ m) = ground (
  arith,
  release-free_at offset size b m,
  join_next-free_at p (n + size) b m,
  join_next-free_at offset size b ((p, n) ∷ m),
)

join_next-total : (offset size : ℕ) (m : Regions) → total (join_next offset size m) ≡ total m + size
unfolding total
join_next-total offset size [] = omega arith
join_next-total offset size ((o, l) ∷ m) = ground arith

pub release-total : (offset size : ℕ) (m : Regions) → total (release offset size m) ≡ total m + size
unfolding release total
release-total offset size [] = omega arith
release-total offset size ((p, n) ∷ m) = ground (
  arith,
  release-total offset size m,
  join_next-total p (n + size) m,
  join_next-total offset size ((p, n) ∷ m),
)

module _ (s hi : ℕ) (fits : hi ≤ u64_max) (positive : 0 < s) where
  -- What was carved off joins the same region again.
  pub release-carve :
      (lo o l : ℕ) (m : Regions)
      → Free lo hi m
      → find_fit s m ≡ some (o, l)
      → release o s (carve s o l m) ≡ m
  unfolding find_fit release
  release-carve lo o l [] f e = cc
  release-carve lo o l ((p, n) ∷ m) f e = elim (Bool-cases (leb s n)) [
    | inl here ↦
        let same : (p ≡ o) × (n ≡ l) = ground arith in
        rw (← same.0) (
          rw (← same.1) (
            rw (carve_here s p n lo hi m f fits positive (ground arith))
              (whole p n lo m f (leb→le _ _ here))))
    | inr there ↦
        let e' : find_fit s m ≡ some (o, l) = ground arith in
        let b = find_fit-bounds s (suc (p + n)) hi o l m f.3 e' in
        rw (carve_skip s o l p n hi m f.3 fits positive e')
          (ground (arith, release-carve (suc (p + n)) o l m f.3 e'))
  ]
    where
      whole :
          (p n lo : ℕ) (m : Regions)
          → Free lo hi ((p, n) ∷ m)
          → s ≤ n
          → release p s (if ltb s n then (p + s, n - s) ∷ m else m) ≡ (p, n) ∷ m
      whole p n lo [] f h = ground arith
      whole p n lo ((q, k) ∷ m) f h = ground arith
