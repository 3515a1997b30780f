-- ===== src/Allocator/FirstFit/Instance.antt =====
-- The first-fit allocator of crates/quillcache-store/src/allocator.rs behind the allocator
-- interface: a valid allocator state, whose `deallocate` ignores a buffer that is not in use.
use quillcache.Prelude.{
  ℕ, ◌+◌, ◌≤◌, ◌<◌, min, ◌≡◌, refl, subst, ◌⊎◌, inl, inr, Bool, true, false, ◌&&◌, ◌||◌, Option,
  none, some, [], ◌∷◌, arith, ltb, leb, leb→le, u64_max,
}
use quillcache.Allocator.Ordered.{Regions}
use quillcache.Allocator.{AllocatedBuffer}
use quillcache.Allocator.Interface.{BufferAllocator, Laws}
use quillcache.Allocator.FirstFit.{
  FirstFit, create, allocate, deallocate, reserve, largest_free_region,
}
use quillcache.Allocator.FirstFit.Free.{holds, free_at, free_at-le_one}
use quillcache.Allocator.FirstFit.Release.{Apart, give_back-eq-release, release-Free, release-total}
use quillcache.Allocator.FirstFit.Lifecycle.{
  IsValid, create-IsValid, Allocated, Reserved, allocate-Allocated, reserve-Reserved,
}

abbrev pub Segment : Type 0
Segment = (a : FirstFit) × IsValid a

apart : ℕ → ℕ → Regions → Bool
apart offset size [] = true
apart offset size ((o, l) ∷ m) =
    let rest = apart offset size m in (leb (o + l) offset || leb (offset + size) o) && rest

apart-Apart : (offset size : ℕ) (m : Regions) → apart offset size m ≡ true → Apart offset size m
unfolding apart
apart-Apart offset size [] h = tt
apart-Apart offset size ((o, l) ∷ m) h = (ground arith, apart-Apart offset size m (ground arith))

pub in_use : FirstFit → AllocatedBuffer → Bool
unfolding apart
in_use a b =
    ltb 0 b.size
    && leb (b.offset + b.size) a.capacity
    && leb b.size a.allocated
    && apart b.offset b.size a.free

pub deallocate-IsValid :
    (a : FirstFit) (b : AllocatedBuffer) → IsValid a → in_use a b ≡ true → IsValid (deallocate a b)
unfolding in_use deallocate
deallocate-IsValid a b v h =
    let z : 0 < b.size = ground arith in
    let inside : b.offset + b.size ≤ a.capacity = ground arith in
    let counted : b.size ≤ a.allocated = ground arith in
    let free = apart-Apart b.offset b.size a.free (ground arith) in
    let same =
      give_back-eq-release a.capacity v.bounded b.offset b.size 0 a.free v.regions free z inside in
    record {
      bounded = v.bounded;
      regions = rw same (
          release-Free a.capacity v.bounded b.offset b.size 0 a.free v.regions free (omega arith) z
            inside);
      accounted = rw same (omega (arith, release-total b.offset b.size a.free, v.accounted));
    }

pub give_segment :
    (a : FirstFit) → IsValid a → (b : AllocatedBuffer) (used : Bool) → in_use a b ≡ used → Segment
give_segment a v b false h = (a, v)
give_segment a v b true h = (deallocate a b, deallocate-IsValid a b v h)

abbrev pub AllocateOutcome : FirstFit → ℕ → Type 0
AllocateOutcome a size =
    ((allocate a size ≡ none) × ((size ≡ 0) ⊎ (largest_free_region a < size)))
    ⊎ ((b : AllocatedBuffer) × (a' : FirstFit) × (allocate a size ≡ some (b, a'))
        × (0 < size)
        × (size ≤ largest_free_region a)
        × Allocated a size b a')

pub take_segment :
    (a : FirstFit) (size : ℕ) → AllocateOutcome a size → Option (AllocatedBuffer × Segment)
take_segment a size (inl h) = none
take_segment a size (inr (b, a', e, z, f, q)) = some (b, (a', q.valid))

abbrev pub ReserveOutcome : FirstFit → ℕ → ℕ → Type 0
ReserveOutcome a offset size =
    ((a' : FirstFit) × (reserve a offset size ≡ some a') × (0 < size) × Reserved a offset size a')
    ⊎ ((reserve a offset size ≡ none)
        × ((size ≡ 0) ⊎ ((b : ℕ) × (holds offset size b ≡ 1) × (free_at a.free b ≡ 0))))

pub reserve_segment :
    (a : FirstFit) (offset size : ℕ) → ReserveOutcome a offset size → Option Segment
reserve_segment a offset size (inl (a', e, z, q)) = some (a', q.valid)
reserve_segment a offset size (inr h) = none

pub bounded_reserve :
    (a : FirstFit)
    → IsValid a
    → (offset size : ℕ) (small : Bool) → leb (offset + size) u64_max ≡ small
    → Option Segment
unfolding reserve_segment
bounded_reserve a v offset size false h = none
bounded_reserve a v offset size true h =
    reserve_segment a offset size (reserve-Reserved a offset size v (leb→le _ _ h))

abbrev pub first_fit : BufferAllocator Segment
unfolding give_segment take_segment bounded_reserve
first_fit = record {
  mount = λ name cap.
      (create name (min cap u64_max), create-IsValid name (min cap u64_max) (omega arith));
  segment_name = λ s. s.0.segment_name;
  capacity = λ s. s.0.capacity;
  allocated = λ s. s.0.allocated;
  allocate = λ s size. take_segment s.0 size (allocate-Allocated s.0 size s.1);
  deallocate = λ s b. give_segment s.0 s.1 b (in_use s.0 b) refl;
  largest_free_region = λ s. largest_free_region s.0;
  reserve = λ s offset size. bounded_reserve s.0 s.1 offset size (leb (offset + size) u64_max) refl;
}

-- What a successful answer says of the new state.
abbrev Took : FirstFit → ℕ → Option (AllocatedBuffer × Segment) → Type 0
Took a size none = Unit {0}
Took a size (some (b, s)) =
    (s.0.segment_name ≡ a.segment_name) × (b.segment_name ≡ a.segment_name) × (b.size ≡ size)

take_segment-Took :
    (a : FirstFit) (size : ℕ) (o : AllocateOutcome a size) → Took a size (take_segment a size o)
unfolding take_segment
take_segment-Took a size (inl h) = tt
take_segment-Took a size (inr (b, a', e, z, f, q)) =
    (q.kept.1, ground (arith, allocate-name a size b a' e), q.sized)
  where
    allocate-name :
        (a : FirstFit) (size : ℕ) (b : AllocatedBuffer) (a' : FirstFit)
        → allocate a size ≡ some (b, a')
        → b.segment_name ≡ a.segment_name
    allocate-name a size b a' e = unfold allocate in ground arith

abbrev Held : FirstFit → ℕ → ℕ → Option Segment → Type 0
Held a offset size none = Unit {0}
Held a offset size (some s) = (0 < size) × Reserved a offset size s.0

reserve_segment-Held :
    (a : FirstFit) (offset size : ℕ) (o : ReserveOutcome a offset size)
    → Held a offset size (reserve_segment a offset size o)
unfolding reserve_segment
reserve_segment-Held a offset size (inl (a', e, z, q)) = (z, q)
reserve_segment-Held a offset size (inr h) = tt

bounded_reserve-Held :
    (a : FirstFit) (v : IsValid a) (offset size : ℕ) (small : Bool)
    (e : leb (offset + size) u64_max ≡ small)
    → Held a offset size (bounded_reserve a v offset size small e)
unfolding bounded_reserve
bounded_reserve-Held a v offset size false e = tt
bounded_reserve-Held a v offset size true e = reserve_segment-Held a offset size _

-- Some byte of the range is not free, so no outcome is a success.
refused :
    (a : FirstFit) (v : IsValid a) (offset size b : ℕ) (small : Bool)
    (e : leb (offset + size) u64_max ≡ small)
    → holds offset size b ≡ 1
    → free_at a.free b ≡ 0
    → bounded_reserve a v offset size small e ≡ none
unfolding bounded_reserve
refused a v offset size b false e h f = refl
refused a v offset size b true e h f = go (reserve-Reserved a offset size v (leb→le _ _ e))
  where
    go : (o : ReserveOutcome a offset size) → reserve_segment a offset size o ≡ none
    go (inl (a', e', z, q)) = absurd (omega (arith, q.bytes b, h, f))
    go (inr r) = refl

-- A refusal without overflow shows such a byte.
refusal :
    (a : FirstFit) (v : IsValid a) (offset size : ℕ) (e : leb (offset + size) u64_max ≡ true)
    → bounded_reserve a v offset size true e ≡ none
    → (size ≡ 0) ⊎ ((b : ℕ) × (holds offset size b ≡ 1) × (free_at a.free b ≡ 0))
unfolding bounded_reserve
refusal a v offset size e r = go (reserve-Reserved a offset size v (leb→le _ _ e)) r
  where
    go :
        (o : ReserveOutcome a offset size)
        → reserve_segment a offset size o ≡ none
        → (size ≡ 0) ⊎ ((b : ℕ) × (holds offset size b ≡ 1) × (free_at a.free b ≡ 0))
    go (inl x) r = cc
    go (inr (x, why)) r = why

empty_refused :
    (a : FirstFit) (v : IsValid a) (offset size : ℕ) (small : Bool)
    (e : leb (offset + size) u64_max ≡ small)
    → size ≡ 0
    → bounded_reserve a v offset size small e ≡ none
unfolding bounded_reserve
empty_refused a v offset size false e h = refl
empty_refused a v offset size true e h = go (reserve-Reserved a offset size v (leb→le _ _ e))
  where
    go : (o : ReserveOutcome a offset size) → reserve_segment a offset size o ≡ none
    go (inl (a', e', z, q)) = absurd (omega arith)
    go (inr r) = refl

overflow_refused :
    (a : FirstFit) (v : IsValid a) (offset size : ℕ) (small : Bool)
    (e : leb (offset + size) u64_max ≡ small)
    → small ≡ false
    → bounded_reserve a v offset size small e ≡ none
unfolding bounded_reserve
overflow_refused a v offset size false e h = refl
overflow_refused a v offset size true e h = cc

shrinks :
    (a : FirstFit) (v : IsValid a) (s : Segment) (o n offset size : ℕ) (small : Bool)
    (e : leb (o + n) u64_max ≡ small)
    → Reserved a offset size s.0
    → bounded_reserve a v o n small e ≡ none
    → bounded_reserve s.0 s.1 o n small e ≡ none
shrinks a v s o n offset size false e q r = overflow_refused s.0 s.1 o n false e refl
shrinks a v s o n offset size true e q r = elim (refusal a v o n e r) [
  | inl z ↦ empty_refused s.0 s.1 o n true e z
  | inr (b, h, f) ↦ refused s.0 s.1 o n b true e h (omega (arith, q.bytes b, f))
]

give_segment-name :
    (a : FirstFit) (v : IsValid a) (b : AllocatedBuffer) (used : Bool) (h : in_use a b ≡ used)
    → (give_segment a v b used h).0.segment_name ≡ a.segment_name
unfolding give_segment deallocate
give_segment-name a v b false h = refl
give_segment-name a v b true h = refl

take_segment-some :
    (a : FirstFit) (size : ℕ) (o : AllocateOutcome a size)
    → 0 < size
    → size ≤ largest_free_region a
    → (b : AllocatedBuffer) × (s : Segment) × (take_segment a size o ≡ some (b, s))
unfolding take_segment
take_segment-some a size (inl (e, why)) z f = absurd (omega (arith, why))
take_segment-some a size (inr (b, a', e, z', f', q)) z f = (b, (a', q.valid), refl)

-- The first-fit allocator keeps the laws that the master relies on.
pub first_fit-Laws : Laws first_fit
unfolding first_fit
first_fit-Laws = record {
  name_mount = λ name cap. unfold create in refl;
  name_allocate = λ a a' size b e.
      (subst (Took a.0 size) e (take_segment-Took a.0 size (allocate-Allocated a.0 size a.1))).0;
  buffer_allocate = λ a a' size b e.
      let t =
        subst (Took a.0 size) e (take_segment-Took a.0 size (allocate-Allocated a.0 size a.1)) in
      (t.1, t.2);
  allocates_fitting =
      λ a size z f. take_segment-some a.0 size (allocate-Allocated a.0 size a.1) z f;
  name_deallocate = λ a b. give_segment-name a.0 a.1 b (in_use a.0 b) refl;
  name_reserve = λ a a' offset size e.
      (subst (Held a.0 offset size) e
        (bounded_reserve-Held a.0 a.1 offset size (leb (offset + size) u64_max) refl)).1.kept.1;
  reserve_twice = λ a a' offset size e.
      let held =
        subst (Held a.0 offset size) e
          (bounded_reserve-Held a.0 a.1 offset size (leb (offset + size) u64_max) refl) in
      refused a'.0 a'.1 offset size offset _ refl (ground (arith, held.0)) (
        ground (
          arith,
          held.0,
          held.1.bytes offset,
          free_at-le_one 0 a.0.capacity offset a.0.free a.1.regions,
        ));
  reserve_shrinks = λ a a' o n offset size r e.
      let held =
        subst (Held a.0 offset size) e
          (bounded_reserve-Held a.0 a.1 offset size (leb (offset + size) u64_max) refl) in
      shrinks a.0 a.1 a' o n offset size _ refl held.1 r;
}
