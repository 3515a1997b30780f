-- ===== src/Allocator/Interface.antt =====
-- The trait `BufferAllocator` of crates/quillcache-store/src/allocator.rs, as operations on the
-- state of one segment's allocator, and what its clients rely on.
use quillcache.Prelude.{ℕ, ◌≤◌, ◌<◌, String, ◌≡◌, Option, none, some}
use quillcache.Allocator.{AllocatedBuffer}

pub record BufferAllocator (A : Type 0) : Type 0 where
  -- `OffsetBufferAllocator::new`, which the master mounts.
  pub mount : String → ℕ → A
  pub segment_name : A → String
  pub capacity : A → ℕ
  pub allocated : A → ℕ
  pub allocate : A → ℕ → Option (AllocatedBuffer × A)
  pub deallocate : A → AllocatedBuffer → A
  pub largest_free_region : A → ℕ
  -- `none` is the answer `false`, which changes nothing.
  pub reserve : A → ℕ → ℕ → Option A

-- The names and sizes that the operations keep. A range that is reserved cannot be reserved again,
-- and reserving other ranges frees none. A region that is large enough is allocated from.
pub record Laws {A : Type 0} (B : BufferAllocator A) : Type 0 where
  pub name_mount : (name : String) (capacity : ℕ) → B.segment_name (B.mount name capacity) ≡ name
  pub name_allocate :
      (a a' : A) (size : ℕ) (b : AllocatedBuffer)
      → B.allocate a size ≡ some (b, a')
      → B.segment_name a' ≡ B.segment_name a
  pub buffer_allocate :
      (a a' : A) (size : ℕ) (b : AllocatedBuffer)
      → B.allocate a size ≡ some (b, a')
      → (b.segment_name ≡ B.segment_name a) × (b.size ≡ size)
  pub allocates_fitting :
      (a : A) (size : ℕ)
      → 0 < size
      → size ≤ B.largest_free_region a
      → (b : AllocatedBuffer) × (a' : A) × (B.allocate a size ≡ some (b, a'))
  pub name_deallocate :
      (a : A) (b : AllocatedBuffer) → B.segment_name (B.deallocate a b) ≡ B.segment_name a
  pub name_reserve :
      (a a' : A) (offset size : ℕ)
      → B.reserve a offset size ≡ some a'
      → B.segment_name a' ≡ B.segment_name a
  pub reserve_twice :
      (a a' : A) (offset size : ℕ)
      → B.reserve a offset size ≡ some a'
      → B.reserve a' offset size ≡ none
  pub reserve_shrinks :
      (a a' : A) (o s offset size : ℕ)
      → B.reserve a o s ≡ none
      → B.reserve a offset size ≡ some a'
      → B.reserve a' o s ≡ none
