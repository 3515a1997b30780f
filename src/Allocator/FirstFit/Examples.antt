-- ===== src/Allocator/FirstFit/Examples.antt =====
-- Runs of the first-fit allocator, and its theorems at concrete inputs.
use quillcache.Prelude.{ℕ, ◌≤◌, ◌<◌, ◌≡◌, refl, ◌⊎◌, none, some, [], ◌∷◌, arith}
use quillcache.Allocator.{AllocatedBuffer}
use quillcache.Allocator.FirstFit.{
  FirstFit, create, carve, give_back, cut, allocate, deallocate, reserve, largest_free_region,
}
use quillcache.Allocator.FirstFit.Free.{holds, free_at}
use quillcache.Allocator.FirstFit.Lifecycle.{
  IsValid, create-IsValid, Allocated, Reserved, allocate-Allocated, reserve-Reserved,
}
use quillcache.Allocator.FirstFit.Ownership.{
  allocates, returns, Reach, here, next, Partition, segment-Partition,
}

abbrev segment : FirstFit
segment = record { segment_name = "seg-0"; capacity = 100; free = (0, 100) ∷ []; allocated = 0 }

abbrev buffer_at : ℕ → ℕ → AllocatedBuffer
buffer_at offset size = record { segment_name = "seg-0"; offset = offset; size = size }

-- Two neighbours are handed out, given back in order, and join again.
coalesces :
    deallocate
      (deallocate (record segment { free = (70, 30) ∷ []; allocated = 70 }) (buffer_at 0 30))
      (buffer_at 30 40)
    ≡ segment
unfolding deallocate give_back
coalesces = refl

reserves_middle :
    reserve segment 10 20 ≡ some (record segment { free = (0, 10) ∷ (30, 70) ∷ []; allocated = 20 })
unfolding reserve cut
reserves_middle = refl

segment-IsValid : IsValid segment
unfolding create
segment-IsValid = create-IsValid "seg-0" 100 (omega arith)

allocate-Allocated_example :
    ((allocate segment 30 ≡ none) × (◌≡◌ {A = ℕ} 30 0 ⊎ (largest_free_region segment < 30)))
    ⊎ ((buffer : AllocatedBuffer) × (a : FirstFit) × (allocate segment 30 ≡ some (buffer, a))
        × (0 < 30)
        × (30 ≤ largest_free_region segment)
        × Allocated segment 30 buffer a)
allocate-Allocated_example = allocate-Allocated segment 30 segment-IsValid

reserve-Reserved_example :
    ((a : FirstFit) × (reserve segment 10 20 ≡ some a) × (0 < 20) × Reserved segment 10 20 a)
    ⊎ ((reserve segment 10 20 ≡ none)
        × (◌≡◌ {A = ℕ} 20 0 ⊎ ((b : ℕ) × (holds 10 20 b ≡ 1) × (free_at segment.free b ≡ 0))))
reserve-Reserved_example = reserve-Reserved segment 10 20 segment-IsValid (omega arith)

abbrev taken : FirstFit
taken = record segment { free = (30, 70) ∷ []; allocated = 30 }

takes : allocate (create "seg-0" 100) 30 ≡ some (buffer_at 0 30, taken)
unfolding allocate create carve
takes = refl

history :
    Reach
      (record { alloc = create "seg-0" 100; live = [] })
      (record { alloc = deallocate taken (buffer_at 0 30); live = [] })
history =
    next
      (next here (
        allocates (record { alloc = create "seg-0" 100; live = [] }) 30 (buffer_at 0 30) taken
          takes))
      (returns (record { alloc = taken; live = buffer_at 0 30 ∷ [] }) 0 (buffer_at 0 30) refl)

segment-Partition_example :
    Partition (record { alloc = deallocate taken (buffer_at 0 30); live = [] })
segment-Partition_example =
    segment-Partition "seg-0" 100 (record { alloc = deallocate taken (buffer_at 0 30); live = [] })
      (omega arith) history
