-- ===== src/Allocator/FirstFit/Lifecycle.antt =====
-- The allocator with the buffers that it has handed out, and who owns each byte.
use quillcache.Prelude.{
  ℕ, zero, suc, ◌+◌, ◌≤◌, ◌<◌, String, ◌≡◌, refl, ◌∙◌, ◌⊎◌, inl, inr, none, some, [], ◌∷◌, arith,
  leb, ◌==◌, leb→le, ==_iff, Bool-cases, Option-cases, u64_max, add64,
}
use quillcache.Allocator.Ordered.{Regions, find_fit, last_upto}
use quillcache.Allocator.{AllocatedBuffer}
use quillcache.Allocator.FirstFit.{
  FirstFit, create, allocate, deallocate, reserve, largest_free_region, carve, cut, give_back,
}
use quillcache.Allocator.FirstFit.Free.{
  Free, holds, free_at, total, find_fit-bounds, find_fit-max_value, free_at-le_one,
  free_at-last_upto, last_upto-bounds,
}
use quillcache.Allocator.FirstFit.Carve.{carve-Free, carve-free_at, carve-total}
use quillcache.Allocator.FirstFit.Release.{Apart, give_back-eq-release, release-carve}
use quillcache.Allocator.FirstFit.Reserve.{cut-Free, cut-free_at, cut-total}

-- A well-formed free list that accounts, with `allocated`, for the whole segment.
pub record IsValid (a : FirstFit) : Type 0 where
  pub bounded : a.capacity ≤ u64_max
  pub regions : Free 0 a.capacity a.free
  pub accounted : total a.free + a.allocated ≡ a.capacity

pub create-IsValid :
    (name : String) (capacity : ℕ) → capacity ≤ u64_max → IsValid (create name capacity)
unfolding create total
create-IsValid name capacity h = record {
  bounded = h;
  regions = ground arith;
  accounted = ground arith;
}

-- What a successful `allocate` did.
pub record Allocated (a : FirstFit) (size : ℕ) (buffer : AllocatedBuffer) (a' : FirstFit)
    : Type 0 where
  pub sized : buffer.size ≡ size
  pub named : buffer.segment_name ≡ a.segment_name
  pub within : buffer.offset + size ≤ a.capacity
  pub bytes : (b : ℕ) → free_at a'.free b + holds buffer.offset size b ≡ free_at a.free b
  pub counted : a'.allocated ≡ a.allocated + size
  pub kept : (a'.capacity ≡ a.capacity) × (a'.segment_name ≡ a.segment_name)
  pub valid : IsValid a'
  pub undone : deallocate a' buffer ≡ a

taken : FirstFit → ℕ → ℕ → ℕ → FirstFit
taken a size o l = record a { free = carve size o l a.free; allocated = add64 a.allocated size }

allocate-found :
    (a : FirstFit) (size o l : ℕ)
    → 0 < size
    → find_fit size a.free ≡ some (o, l)
    → allocate a size
      ≡ some (record { segment_name = a.segment_name; offset = o; size = size }, taken a size o l)
unfolding allocate taken
allocate-found a size o l z e = ground arith

pub holds-Apart :
    (o s : ℕ) (m : Regions) (lo hi : ℕ)
    → Free lo hi m
    → 0 < s
    → ((b : ℕ) → free_at m b + holds o s b ≤ 1)
    → Apart o s m
unfolding free_at
holds-Apart o s [] lo hi f z h = tt
holds-Apart o s ((p, n) ∷ m) lo hi f z h =
    (ground (arith, h p, h o), holds-Apart o s m (suc (p + n)) hi f.3 z (λ b. omega (arith, h b)))

taken-undone :
    (a : FirstFit) (size o l : ℕ)
    → IsValid a
    → 0 < size
    → find_fit size a.free ≡ some (o, l)
    → give_back o size (carve size o l a.free) ≡ a.free
taken-undone a size o l v z e =
    let at = find_fit-bounds size 0 a.capacity o l a.free v.regions e in
    let regions = carve-Free size a.capacity v.bounded z 0 o l a.free v.regions e in
    let apart = holds-Apart o size (carve size o l a.free) 0 a.capacity regions z λ b. omega (
      arith,
      carve-free_at size a.capacity v.bounded z 0 o l a.free b v.regions e,
      free_at-le_one 0 a.capacity b a.free v.regions,
    ) in
    give_back-eq-release a.capacity v.bounded o size 0 _ regions apart z (omega arith)
    ∙ release-carve size a.capacity v.bounded z 0 o l a.free v.regions e

taken-Allocated :
    (a : FirstFit) (size o l : ℕ)
    → IsValid a
    → 0 < size
    → find_fit size a.free ≡ some (o, l)
    → Allocated a size
        (record { segment_name = a.segment_name; offset = o; size = size })
        (taken a size o l)
unfolding taken deallocate
taken-Allocated a size o l v z e =
    let at = find_fit-bounds size 0 a.capacity o l a.free v.regions e in
    let all = carve-total size a.capacity v.bounded z 0 o l a.free v.regions e in
    let bytes = λ (b : ℕ). carve-free_at size a.capacity v.bounded z 0 o l a.free b v.regions e in
    let regions = carve-Free size a.capacity v.bounded z 0 o l a.free v.regions e in
    let counted : add64 a.allocated size ≡ a.allocated + size =
      omega (arith, v.accounted, v.bounded) in
    record {
      sized = refl;
      named = refl;
      within = omega arith;
      bytes = bytes;
      counted = counted;
      kept = (refl, refl);
      valid = record {
        bounded = v.bounded;
        regions = regions;
        accounted = omega (arith, v.accounted);
      };
      undone = ground (arith, taken-undone a size o l v z e);
    }

-- `allocate` on a valid allocator fails exactly when the size is 0 or no free region is as large;
-- otherwise it hands out a buffer of free bytes within the segment, takes those bytes and no
-- others, counts them, keeps the allocator valid, and `deallocate` of the buffer undoes it.
pub allocate-Allocated :
    (a : FirstFit) (size : ℕ)
    → IsValid a
    → ((allocate a size ≡ none) × ((size ≡ 0) ⊎ (largest_free_region a < size)))
      ⊎ ((buffer : AllocatedBuffer) × (a' : FirstFit) × (allocate a size ≡ some (buffer, a'))
          × (0 < size)
          × (size ≤ largest_free_region a)
          × Allocated a size buffer a')
unfolding allocate largest_free_region
allocate-Allocated a zero v = inl (refl, inl refl)
allocate-Allocated a (suc n) v = elim (Option-cases (find_fit (suc n) a.free)) [
  | inl e ↦ inl (ground arith, inr ((find_fit-max_value (suc n) a.free (omega arith)).0 e))
  | inr ((o, l), e) ↦ inr (
    _,
    taken a (suc n) o l,
    allocate-found a (suc n) o l (omega arith) e,
    omega arith,
    ground (arith, find_fit-max_value (suc n) a.free),
    taken-Allocated a (suc n) o l v (omega arith) e,
  )
]

-- What a successful `reserve` did.
pub record Reserved (a : FirstFit) (offset size : ℕ) (a' : FirstFit) : Type 0 where
  pub within : offset + size ≤ a.capacity
  pub bytes : (b : ℕ) → free_at a'.free b + holds offset size b ≡ free_at a.free b
  pub counted : a'.allocated ≡ a.allocated + size
  pub kept : (a'.capacity ≡ a.capacity) × (a'.segment_name ≡ a.segment_name)
  pub valid : IsValid a'

reserved : FirstFit → ℕ → ℕ → ℕ → ℕ → FirstFit
reserved a offset size o l = record a {
  free = cut offset (offset + size) o l a.free;
  allocated = add64 a.allocated size;
}

reserved-Reserved :
    (a : FirstFit) (offset size o l : ℕ)
    → IsValid a
    → 0 < size
    → last_upto offset a.free ≡ some (o, l)
    → offset + size ≤ o + l
    → Reserved a offset size (reserved a offset size o l)
unfolding reserved
reserved-Reserved a offset size o l v z e k =
    let at = last_upto-bounds offset 0 a.capacity o l a.free v.regions e in
    let all = cut-total offset size a.capacity v.bounded z 0 o l a.free v.regions e k in
    let counted : add64 a.allocated size ≡ a.allocated + size =
      omega (arith, v.accounted, v.bounded) in
    record {
      within = omega arith;
      bytes = λ b. cut-free_at offset size a.capacity v.bounded z b 0 o l a.free v.regions e k;
      counted = counted;
      kept = (refl, refl);
      valid = record {
        bounded = v.bounded;
        regions = cut-Free offset size a.capacity v.bounded z 0 o l a.free v.regions e k;
        accounted = omega (arith, v.accounted);
      };
    }

-- Where no region reaches from `offset` to the end of the range, a byte of it is not free.
gap :
    (a : FirstFit) (offset size : ℕ)
    → IsValid a
    → 0 < size
    → ((o l : ℕ) → last_upto offset a.free ≡ some (o, l) → o + l < offset + size)
    → (b : ℕ) × (holds offset size b ≡ 1) × (free_at a.free b ≡ 0)
gap a offset size v z short = elim (Bool-cases (free_at a.free offset == 1)) [
  | inr other ↦
      (offset, ground arith, ground (arith, free_at-le_one 0 a.capacity offset a.free v.regions))
  | inl free ↦
      let (o, l, e, j, zero_at) =
        free_at-last_upto 0 a.capacity offset a.free v.regions ((==_iff _ _).0 free) in
      let s = short o l e in (o + l, ground arith, zero_at)
]

-- `reserve` of a range that does not overflow succeeds exactly when the range is not empty and
-- all of its bytes are free, and then takes those bytes and no others.
pub reserve-Reserved :
    (a : FirstFit) (offset size : ℕ)
    → IsValid a
    → offset + size ≤ u64_max
    → ((a' : FirstFit) × (reserve a offset size ≡ some a') × (0 < size) × Reserved a offset size a')
      ⊎ ((reserve a offset size ≡ none)
          × ((size ≡ 0) ⊎ ((b : ℕ) × (holds offset size b ≡ 1) × (free_at a.free b ≡ 0))))
unfolding reserve
reserve-Reserved a offset zero v h = inr (refl, inl refl)
reserve-Reserved a offset (suc n) v h = elim (Option-cases (last_upto offset a.free)) [
  | inl e ↦ inr (ground arith, inr (gap a offset (suc n) v (omega arith) (λ o l e'. cc)))
  | inr ((o, l), e) ↦
      let at = last_upto-bounds offset 0 a.capacity o l a.free v.regions e in
      elim (Bool-cases (leb (offset + suc n) (o + l))) [
        | inl reaches ↦ inl (
          reserved a offset (suc n) o l,
          unfold reserved in ground arith,
          omega arith,
          reserved-Reserved a offset (suc n) o l v (omega arith) e (leb→le _ _ reaches),
        )
        | inr short ↦
            inr
              (ground arith, inr (gap a offset (suc n) v (omega arith) (λ o' l' e'. ground arith)))
      ]
]
