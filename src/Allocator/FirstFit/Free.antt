-- ===== src/Allocator/FirstFit/Free.antt =====
-- Well-formed free lists: regions in ascending order, not empty, not touching, within bounds; and
-- the view of a free list as the number of its regions that hold a byte.
use quillcache.Prelude.{
  ℕ, suc, ◌+◌, ◌≤◌, ◌<◌, ◌≡◌, refl, ◌↔◌, inl, inr, ◌&&◌, none, some, [], ◌∷◌, arith, ltb, leb,
  if◌then◌else◌, Bool-cases,
}
use quillcache.Allocator.Ordered.{
  Regions, insert_key, remove_key, find_fit, last_below, last_upto, first_from, max_value,
}

abbrev pub Free : ℕ → ℕ → Regions → Type 0
Free lo hi [] = Unit {0}
Free lo hi ((o, l) ∷ m) = (lo ≤ o) × (0 < l) × (o + l ≤ hi) × Free (suc (o + l)) hi m

-- 1 where the byte `b` lies in `[o, o + l)`, else 0.
abbrev pub holds : ℕ → ℕ → ℕ → ℕ
holds o l b = if leb o b && ltb b (o + l) then 1 else 0

unfoldable pub free_at : Regions → ℕ → ℕ
free_at [] b = 0
free_at ((o, l) ∷ m) b = holds o l b + free_at m b

unfoldable pub total : Regions → ℕ
total [] = 0
total ((o, l) ∷ m) = l + total m

pub Free-mono : (lo lo' hi : ℕ) (m : Regions) → lo' ≤ lo → Free lo hi m → Free lo' hi m
Free-mono lo lo' hi [] h f = tt
Free-mono lo lo' hi ((o, l) ∷ m) h f = (omega arith, f.1, f.2, f.3)

-- No region of a well-formed list holds a byte below its lower bound.
pub free_at-below : (lo hi b : ℕ) (m : Regions) → Free lo hi m → b < lo → free_at m b ≡ 0
unfolding free_at
free_at-below lo hi b [] f h = refl
free_at-below lo hi b ((o, l) ∷ m) f h = ground (arith, free_at-below (suc (o + l)) hi b m f.3)

pub find_fit-bounds :
    (s lo hi o l : ℕ) (m : Regions)
    → Free lo hi m
    → find_fit s m ≡ some (o, l)
    → (lo ≤ o) × (s ≤ l) × (o + l ≤ hi)
unfolding find_fit
find_fit-bounds s lo hi o l [] f e = cc
find_fit-bounds s lo hi o l ((p, n) ∷ m) f e =
    ground (arith, find_fit-bounds s (suc (p + n)) hi o l m f.3)

pub find_fit-max_value : (s : ℕ) (m : Regions) → 0 < s → (find_fit s m ≡ none) ↔ (max_value m < s)
unfolding find_fit max_value
find_fit-max_value s [] h = ground arith
find_fit-max_value s ((o, l) ∷ m) h = ground (arith, find_fit-max_value s m h)

pub insert_key-front :
    (k v lo hi : ℕ) (m : Regions) → Free lo hi m → k < lo → insert_key k v m ≡ (k, v) ∷ m
unfolding insert_key
insert_key-front k v lo hi [] f h = refl
insert_key-front k v lo hi ((o, l) ∷ m) f h = ground arith

pub last_below-bounds :
    (k lo hi o l : ℕ) (m : Regions)
    → Free lo hi m
    → last_below k m ≡ some (o, l)
    → (lo ≤ o) × (o < k) × (o + l ≤ hi)
unfolding last_below
last_below-bounds k lo hi o l [] f e = cc
last_below-bounds k lo hi o l ((p, n) ∷ m) f e =
    ground (arith, last_below-bounds k (suc (p + n)) hi o l m f.3)

pub last_below-none : (k lo hi : ℕ) (m : Regions) → Free lo hi m → k ≤ lo → last_below k m ≡ none
unfolding last_below
last_below-none k lo hi [] f h = refl
last_below-none k lo hi ((p, n) ∷ m) f h = ground arith

pub last_upto-bounds :
    (k lo hi o l : ℕ) (m : Regions)
    → Free lo hi m
    → last_upto k m ≡ some (o, l)
    → (lo ≤ o) × (o ≤ k) × (o + l ≤ hi)
unfolding last_upto
last_upto-bounds k lo hi o l [] f e = cc
last_upto-bounds k lo hi o l ((p, n) ∷ m) f e =
    ground (arith, last_upto-bounds k (suc (p + n)) hi o l m f.3)

pub last_upto-none : (k lo hi : ℕ) (m : Regions) → Free lo hi m → k < lo → last_upto k m ≡ none
unfolding last_upto
last_upto-none k lo hi [] f h = refl
last_upto-none k lo hi ((p, n) ∷ m) f h = ground arith

pub first_from-bounds :
    (k lo hi o l : ℕ) (m : Regions)
    → Free lo hi m
    → first_from k m ≡ some (o, l)
    → (lo ≤ o) × (k ≤ o) × (o + l ≤ hi)
unfolding first_from
first_from-bounds k lo hi o l [] f e = cc
first_from-bounds k lo hi o l ((p, n) ∷ m) f e =
    ground (arith, first_from-bounds k (suc (p + n)) hi o l m f.3)

pub remove_key-Free : (k lo hi : ℕ) (m : Regions) → Free lo hi m → Free lo hi (remove_key k m)
unfolding remove_key
remove_key-Free k lo hi [] f = tt
remove_key-Free k lo hi ((o, l) ∷ m) f =
    ground (arith, Free-mono (suc (o + l)) lo hi m, remove_key-Free k (suc (o + l)) hi m f.3)

-- No byte lies in two regions.
pub free_at-le_one : (lo hi b : ℕ) (m : Regions) → Free lo hi m → free_at m b ≤ 1
unfolding free_at
free_at-le_one lo hi b [] f = omega arith
free_at-le_one lo hi b ((o, l) ∷ m) f =
    ground (arith, free_at-le_one (suc (o + l)) hi b m f.3, free_at-below (suc (o + l)) hi b m f.3)

-- A byte of a region lies within the bounds of the list.
pub free_at-above : (lo hi b : ℕ) (m : Regions) → Free lo hi m → hi ≤ b → free_at m b ≡ 0
unfolding free_at
free_at-above lo hi b [] f h = refl
free_at-above lo hi b ((o, l) ∷ m) f h = ground (arith, free_at-above (suc (o + l)) hi b m f.3)

-- The region found at or below a free byte holds it, and the byte after that region is not free.
pub free_at-last_upto :
    (lo hi k : ℕ) (m : Regions)
    → Free lo hi m
    → free_at m k ≡ 1
    → (o : ℕ) × (l : ℕ) × (last_upto k m ≡ some (o, l)) × (k < o + l) × (free_at m (o + l) ≡ 0)
unfolding free_at last_upto
free_at-last_upto lo hi k [] f h = absurd (omega arith)
free_at-last_upto lo hi k ((p, n) ∷ m) f h = elim (Bool-cases (leb p k && ltb k (p + n))) [
  | inl inside ↦ (
    p,
    n,
    ground (arith, last_upto-none k (suc (p + n)) hi m f.3),
    ground arith,
    ground (arith, free_at-below (suc (p + n)) hi (p + n) m f.3),
  )
  | inr outside ↦
      let (o, l, e, j, z) = free_at-last_upto (suc (p + n)) hi k m f.3 (ground arith) in
      let b = last_upto-bounds k (suc (p + n)) hi o l m f.3 e in
      (o, l, ground arith, j, ground arith)
]
