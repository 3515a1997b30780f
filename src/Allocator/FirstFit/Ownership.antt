-- ===== src/Allocator/FirstFit/Ownership.antt =====
-- The allocator with the buffers that it has handed out, and who owns each byte.
use quillcache.Prelude.{
  ℕ, zero, suc, ◌+◌, ◌≤◌, ◌<◌, String, ◌≡◌, refl, sym, subst, inl, inr, some, List, [], ◌∷◌, arith,
  get_elem?, remove_at, All, u64_max,
}
use quillcache.Allocator.{AllocatedBuffer}
use quillcache.Allocator.FirstFit.{FirstFit, create, allocate, deallocate, reserve}
use quillcache.Allocator.FirstFit.Free.{holds, free_at}
use quillcache.Allocator.FirstFit.Release.{
  give_back-eq-release, release-Free, release-free_at, release-total,
}
use quillcache.Allocator.FirstFit.Lifecycle.{
  IsValid, create-IsValid, Allocated, Reserved, allocate-Allocated, reserve-Reserved, holds-Apart,
}

-- The allocator together with the buffers that are in use.
pub record System : Type 0 where
  pub alloc : FirstFit
  pub live : List AllocatedBuffer

unfoldable pub owners : List AllocatedBuffer → ℕ → ℕ
owners [] b = 0
owners (x ∷ xs) b = holds x.offset x.size b + owners xs b

unfoldable pub live_bytes : List AllocatedBuffer → ℕ
live_bytes [] = 0
live_bytes (x ∷ xs) = x.size + live_bytes xs

-- A client allocates, reserves, or gives back a buffer that is in use. A reservation ends within 64
-- bits: the sum that `reserve` makes of its offset and its size wraps beyond.
pub data Step : System → System → Type 0 where
  allocates :
      (s : System) (size : ℕ) (buffer : AllocatedBuffer) (a : FirstFit)
      → allocate s.alloc size ≡ some (buffer, a)
      → Step s (record { alloc = a; live = buffer ∷ s.live })
  reserves :
      (s : System) (offset size : ℕ) (a : FirstFit)
      → offset + size ≤ u64_max
      → reserve s.alloc offset size ≡ some a
      → Step s (record {
        alloc = a;
        live =
            record { segment_name = s.alloc.segment_name; offset = offset; size = size } ∷ s.live;
      })
  returns :
      (s : System) (i : ℕ) (buffer : AllocatedBuffer)
      → get_elem? s.live i ≡ some buffer
      → Step s (record { alloc = deallocate s.alloc buffer; live = remove_at s.live i })

pub data Reach (s : System) : System → Type 0 where
  here : Reach s s
  next : {t u : System} → Reach s t → Step t u → Reach s u

-- Every byte of the segment is free or in exactly one buffer in use, no byte beyond it is either,
-- and the counter holds the bytes in use.
pub record Partition (s : System) : Type 0 where
  pub valid : IsValid s.alloc
  pub owned : (b : ℕ) → free_at s.alloc.free b + owners s.live b ≡ holds 0 s.alloc.capacity b
  pub counted : s.alloc.allocated ≡ live_bytes s.live
  pub sized :
      All (λ (x : AllocatedBuffer). (0 < x.size) × (x.offset + x.size ≤ s.alloc.capacity)) s.live

create-Partition :
    (name : String) (capacity : ℕ)
    → capacity ≤ u64_max
    → Partition (record { alloc = create name capacity; live = [] })
unfolding create owners live_bytes free_at
create-Partition name capacity h = record {
  valid = create-IsValid name capacity h;
  owned = λ b. ground arith;
  counted = refl;
  sized = tt;
}

abbrev Sized : ℕ → AllocatedBuffer → Type 0
Sized cap x = (0 < x.size) × (x.offset + x.size ≤ cap)

owners-remove_at :
    (xs : List AllocatedBuffer) (i : ℕ) (x : AllocatedBuffer) (b : ℕ)
    → get_elem? xs i ≡ some x
    → owners xs b ≡ holds x.offset x.size b + owners (remove_at xs i) b
unfolding owners
owners-remove_at [] i x b e = cc
owners-remove_at (y ∷ xs) zero x b e = ground arith
owners-remove_at (y ∷ xs) (suc i) x b e = omega (arith, owners-remove_at xs i x b e)

live_bytes-remove_at :
    (xs : List AllocatedBuffer) (i : ℕ) (x : AllocatedBuffer)
    → get_elem? xs i ≡ some x
    → live_bytes xs ≡ x.size + live_bytes (remove_at xs i)
unfolding live_bytes
live_bytes-remove_at [] i x e = cc
live_bytes-remove_at (y ∷ xs) zero x e = ground arith
live_bytes-remove_at (y ∷ xs) (suc i) x e = omega (arith, live_bytes-remove_at xs i x e)

Sized-remove_at :
    (cap : ℕ) (xs : List AllocatedBuffer) (i : ℕ) (x : AllocatedBuffer)
    → All (Sized cap) xs
    → get_elem? xs i ≡ some x
    → Sized cap x × All (Sized cap) (remove_at xs i)
Sized-remove_at cap [] i x h e = cc
Sized-remove_at cap (y ∷ xs) zero x h e = (ground arith, h.1)
Sized-remove_at cap (y ∷ xs) (suc i) x h e =
    let (a, b) = Sized-remove_at cap xs i x h.1 e in (a, (h.0, b))

allocates-Partition :
    (s : System) (size : ℕ) (buffer : AllocatedBuffer) (a : FirstFit)
    → Partition s
    → 0 < size
    → Allocated s.alloc size buffer a
    → Partition (record { alloc = a; live = buffer ∷ s.live })
unfolding owners live_bytes
allocates-Partition s size buffer a p z q = record {
  valid = q.valid;
  owned = λ b. rw (q.kept.0, q.sized) (omega (arith, q.bytes b, p.owned b));
  counted = omega (arith, q.counted, p.counted, q.sized);
  sized = (
    omega (arith, q.kept.0, q.sized, q.within),
    subst (λ c. All (Sized c) s.live) (sym q.kept.0) p.sized,
  );
}

reserves-Partition :
    (s : System) (offset size : ℕ) (a : FirstFit)
    → Partition s
    → 0 < size
    → Reserved s.alloc offset size a
    → Partition (record {
      alloc = a;
      live = record { segment_name = s.alloc.segment_name; offset = offset; size = size } ∷ s.live;
    })
unfolding owners live_bytes
reserves-Partition s offset size a p z q = record {
  valid = q.valid;
  owned = λ b. rw (q.kept.0) (omega (arith, q.bytes b, p.owned b));
  counted = omega (arith, q.counted, p.counted);
  sized =
      (omega (arith, q.kept.0, q.within), subst (λ c. All (Sized c) s.live) (sym q.kept.0) p.sized);
}

returns-Partition :
    (s : System) (i : ℕ) (x : AllocatedBuffer)
    → Partition s
    → get_elem? s.live i ≡ some x
    → Partition (record { alloc = deallocate s.alloc x; live = remove_at s.live i })
unfolding deallocate
returns-Partition s i x p e =
    let cap : ℕ = s.alloc.capacity in
    let (fit, rest) = Sized-remove_at cap s.live i x p.sized e in
    let f = p.valid.regions in
    let apart =
      holds-Apart x.offset x.size s.alloc.free 0 cap f fit.0
        λ b. ground (arith, p.owned b, owners-remove_at s.live i x b e) in
    let same =
      give_back-eq-release cap p.valid.bounded x.offset x.size 0 s.alloc.free f apart fit.0 fit.1 in
    let bytes = live_bytes-remove_at s.live i x e in
    record {
      valid = record {
        bounded = p.valid.bounded;
        regions = rw same (
            release-Free cap p.valid.bounded x.offset x.size 0 s.alloc.free f apart (omega arith)
              fit.0 fit.1);
        accounted = rw same (
            omega
              (arith, release-total x.offset x.size s.alloc.free, p.valid.accounted, p.counted));
      };
      owned = λ b. rw same (
          omega (
            arith,
            release-free_at x.offset x.size b s.alloc.free,
            p.owned b,
            owners-remove_at s.live i x b e,
          ));
      counted = omega (arith, p.counted);
      sized = rest;
    }

Step-Partition : {s t : System} → Step s t → Partition s → Partition t
Step-Partition (allocates s size buffer a e) p = elim (allocate-Allocated s.alloc size p.valid) [
  | inl (failed, _) ↦ cc
  | inr (b', a', e', z, _, q) ↦
      let same : (b' ≡ buffer) × (a' ≡ a) = ground arith in
      rw (← same.0) (rw (← same.1) (allocates-Partition s size b' a' p z q))
]
Step-Partition (reserves s offset size a h e) p =
    elim (reserve-Reserved s.alloc offset size p.valid h) [
      | inl (a', e', z, q) ↦
          let same : a' ≡ a = ground arith in
          rw (← same) (reserves-Partition s offset size a' p z q)
      | inr (failed, _) ↦ cc
    ]
Step-Partition (returns s i buffer e) p = returns-Partition s i buffer p e

Reach-Partition : {s t : System} → Partition s → Reach s t → Partition t
Reach-Partition p here = p
Reach-Partition p (next r st) = Step-Partition st (Reach-Partition p r)

-- From a new segment of at most 2 ^ 64 - 1 bytes, whatever is allocated, reserved and given back,
-- in whatever order, where each reservation that is granted ends within 64 bits (its offset plus
-- its size is at most 2 ^ 64 - 1) and each buffer that is given back is one in use: every byte of
-- the segment is free or in exactly one buffer in use, buffers lie within the segment, and
-- `allocated` is the number of bytes in use.
pub segment-Partition :
    (name : String) (capacity : ℕ) (t : System)
    → capacity ≤ u64_max
    → Reach (record { alloc = create name capacity; live = [] }) t
    → Partition t
segment-Partition name capacity t h r = Reach-Partition (create-Partition name capacity h) r
