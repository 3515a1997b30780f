-- ===== src/Strategy.antt =====
-- crates/quillcache-store/src/allocation_strategy.rs: choosing the segments of an object's replicas.
pub mod Sort
pub mod Order
pub mod Distinct
mod Examples
use quillcache.Prelude.{
  ℕ, zero, suc, ◌+◌, ◌-◌, ◌*◌, ◌/◌, ◌%◌, ◌^◌, ◌≤◌, ◌<◌, min, max, String, ◌≡◌, refl, sym, ap, ◌∙◌,
  subst, ◌≢◌, ◌↔◌, ◌⊎◌, inl, inr, Bool, true, false, not, ◌&&◌, ◌||◌, false≢true, Option, none,
  some, List, [], ◌∷◌, ◌++◌, map, arith, str_eq, eq_iff, ltb, leb, ◌==◌, if◌then◌else◌, ltb→lt,
  lt→ltb, leb→le, ==_iff, Bool-cases, Option-cases, length, get_elem?, set, get_or, take, drop,
  replicate, remove_at, keep, any, All, length-append, length-set, length-keep-le, length-map,
  length-take-le, take-append, drop-append, All-append, u64_mod, u64_max, u32_mod, add64, sub64,
  mul64, add32, sub32,
}
use quillcache.Types.{Result, ok, err, no_available_segment}
use quillcache.Allocator.{AllocatedBuffer}
use quillcache.Allocator.Interface.{BufferAllocator}

-- A stable sort: `before x y` says that `y`, which stands later, must come before `x`.
module _ {ℓ} {X : Type ℓ} (before : X → X → Bool) where
  unfoldable pub insert_stable : X → List X → List X
  insert_stable x [] = x ∷ []
  insert_stable x (y ∷ ys) = if before x y then y ∷ insert_stable x ys else x ∷ y ∷ ys

  unfoldable pub sort_stable : List X → List X
  unfolding insert_stable
  sort_stable [] = []
  sort_stable (x ∷ xs) = insert_stable x (sort_stable xs)

abbrev pub with_buffer {ℓ} :
    {S : Type ℓ}
    → AllocatedBuffer
    → Result (List AllocatedBuffer) × S
    → Result (List AllocatedBuffer) × S
with_buffer buffer (ok buffers, s) = (ok (buffer ∷ buffers), s)
with_buffer buffer (err e, s) = (err e, s)

-- `free_ratio` compared: `freer a b` stands for the float comparison by which `b` comes before `a`.
abbrev pub later_ratio {ℓ} : {A : Type ℓ} → (A → A → Bool) → List A → ℕ → ℕ → Bool
later_ratio freer allocators i j = elim (get_elem? allocators i) [
  | none ↦ false
  | some a ↦ elim (get_elem? allocators j) [ none ↦ false | some b ↦ freer a b ]
]

module _ {A : Type 0} (B : BufferAllocator A) where
  -- Whether the segment is not excluded and has a region for `size` bytes.
  abbrev pub fits : ℕ → List String → A → Bool
  fits size excluded a =
      leb size (B.largest_free_region a) && not (any (λ e. str_eq e (B.segment_name a)) excluded)

  -- The indices, from `i` on, of the segments that fit.
  unfoldable pub candidates : ℕ → List String → ℕ → List A → List ℕ
  candidates size excluded i [] = []
  candidates size excluded i (a ∷ as') =
      let rest = candidates size excluded (suc i) as' in
      if fits size excluded a then i ∷ rest else rest

  -- A failed allocation leaves what was placed before it in place.
  unfoldable pub place_each : ℕ → List ℕ → List A → Result (List AllocatedBuffer) × List A
  place_each size [] allocators = (ok [], allocators)
  place_each size (i ∷ is) allocators = elim (get_elem? allocators i) [
    | none ↦ (err no_available_segment, allocators)
    | some a ↦ elim (B.allocate a size) [
      | none ↦ (err no_available_segment, allocators)
      | some (buffer, a') ↦ with_buffer buffer (place_each size is (set allocators i a'))
    ]
  ]

  unfoldable pub place : List A → List ℕ → ℕ → ℕ → Result (List AllocatedBuffer) × List A
  unfolding place_each
  place allocators ordered size replica_num =
      if ltb (length ordered) replica_num
      then (err no_available_segment, allocators)
      else place_each size (take replica_num ordered) allocators

  abbrev pub is_preferred : List A → String → ℕ → Bool
  is_preferred allocators pref k = elim (get_elem? allocators k) [
    | none ↦ false
    | some a ↦ str_eq (B.segment_name a) pref
  ]

  -- `sort_by_key(segment_name != pref)`: the preferred segment floats to the front.
  abbrev pub preferred_later : List A → String → ℕ → ℕ → Bool
  preferred_later allocators pref i j =
      not (is_preferred allocators pref i) && is_preferred allocators pref j

  unfoldable pub prefer : List A → Option String → List ℕ → List ℕ
  unfolding sort_stable
  prefer allocators none order = order
  prefer allocators (some pref) order = sort_stable (preferred_later allocators pref) order

  -- `RandomAllocationStrategy::allocate`.
  unfoldable pub allocate_random :
      List A → ℕ → ℕ → Option String → List String → Result (List AllocatedBuffer) × List A
  unfolding candidates prefer place
  allocate_random allocators size replica_num preferred excluded =
      place allocators (prefer allocators preferred (candidates size excluded 0 allocators)) size
        replica_num

  -- `FreeRatioFirstAllocationStrategy::allocate`.
  unfoldable pub allocate_free_ratio :
      (A → A → Bool)
      → List A
      → ℕ
      → ℕ
      → Option String
      → List String
      → Result (List AllocatedBuffer) × List A
  unfolding candidates prefer place sort_stable
  allocate_free_ratio freer allocators size replica_num preferred excluded =
      place allocators
        (prefer allocators preferred
          (sort_stable (later_ratio freer allocators) (candidates size excluded 0 allocators)))
        size replica_num
