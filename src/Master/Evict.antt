-- ===== src/Master/Evict.antt =====
-- Freeing and eviction in crates/quillcache-store/src/master_service.rs.
use quillcache.Prelude.{
  ℕ, ◌+◌, ◌-◌, ◌*◌, min, String, Bool, true, false, not, ◌&&◌, ◌||◌, Option, none, some, List, [],
  ◌∷◌, map, str_eq, ltb, leb, ◌==◌, if◌then◌else◌, u64_max, add64,
}
use quillcache.StrMap.{StrMap, lookup, remove}
use quillcache.Strategy.{sort_stable}
use quillcache.Allocator.{AllocatedBuffer}
use quillcache.Allocator.Interface.{BufferAllocator}
use quillcache.Types.{Result, ok, err, no_available_segment}
use quillcache.Replica.{ReplicaList, ReplicaData, memory, disk}
use quillcache.Master.{Master, Deps, ObjectMetadata, removed}
use quillcache.Master.Segments.{log_op}

-- An eviction candidate: its key, last access and soft pin.
abbrev pub Victim : Type 0
Victim = String × ℕ × Bool

unfoldable pub victims : ℕ → StrMap ObjectMetadata → List Victim
victims now [] = []
victims now ((k, o) ∷ m) =
    let rest = victims now m in
    if not o.hard_pinned && leb o.lease_until now
    then (k, o.last_access, o.soft_pinned) ∷ rest
    else rest

-- The comparison of `sort_by`: the first comes after the second.
abbrev pub colder : Victim → Victim → Bool
colder x y = if x.2 then (if y.2 then ltb y.1 x.1 else true) else if y.2 then false else ltb y.1 x.1

module _ {A : Type 0} where
  unfoldable pub victims_coldest_first : Master A → List String
  unfolding victims sort_stable
  victims_coldest_first m = map (λ v. v.0) (sort_stable colder (victims m.clock m.objects))

module _ {A : Type 0} (B : BufferAllocator A) where
  -- `deallocate` in the first segment of the buffer's name.
  unfoldable pub deallocate_in : AllocatedBuffer → List A → List A
  deallocate_in buffer [] = []
  deallocate_in buffer (a ∷ others) =
      if str_eq (B.segment_name a) buffer.segment_name
      then B.deallocate a buffer ∷ others
      else a ∷ deallocate_in buffer others

  unfoldable pub free_one : ReplicaData → List A → List A
  unfolding deallocate_in
  free_one (memory buffer) allocators = deallocate_in buffer allocators
  free_one (disk file_path object_size) allocators = allocators

  unfoldable pub free_replicas : ReplicaList → List A → List A
  unfolding free_one
  free_replicas [] allocators = allocators
  free_replicas (r ∷ rs) allocators = free_replicas rs (free_one r.content allocators)

  unfoldable pub capacity : List A → ℕ
  capacity [] = 0
  capacity (a ∷ others) = add64 (B.capacity a) (capacity others)

  unfoldable pub allocated : List A → ℕ
  allocated [] = 0
  allocated (a ∷ others) = add64 (B.allocated a) (allocated others)

  -- One round of an eviction loop, and the number of objects evicted.
  unfoldable pub evict_one : String → ℕ × Master A → ℕ × Master A
  unfolding lookup remove free_replicas log_op
  evict_one key (evicted, m) = elim (lookup key m.objects) [
    | none ↦ (evicted, m)
    | some object ↦ (
      evicted + 1,
      log_op (removed key) (record m {
        objects = remove key m.objects;
        allocators = free_replicas object.replicas m.allocators;
      }),
    )
  ]

  -- The loop over the candidates, with the test of its `break`.
  unfoldable pub evict_until : (List A → Bool) → List String → ℕ × Master A → ℕ × Master A
  unfolding evict_one
  evict_until enough [] s = s
  evict_until enough (key ∷ keys) s = elim (enough s.1.allocators) [
    | true ↦ s
    | false ↦ evict_until enough keys (evict_one key s)
  ]

module _ {A : Type 0} (D : Deps A) where
  unfoldable pub evict_if_needed : Master A → ℕ × Master A
  unfolding capacity allocated evict_until victims_coldest_first
  evict_if_needed m =
      let cap = capacity D.ops m.allocators in
      if cap == 0 || D.below_watermark (allocated D.ops m.allocators) cap
      then (0, m)
      else evict_until D.ops (λ as'. leb (allocated D.ops as') (D.eviction_target cap))
          (victims_coldest_first m) (0, m)

  unfoldable pub evict_to_fit : ℕ → Master A → ℕ × Master A
  unfolding capacity allocated evict_until victims_coldest_first
  evict_to_fit needed m =
      evict_until D.ops (λ as'. leb needed (capacity D.ops as' - allocated D.ops as'))
        (victims_coldest_first m) (0, m)

  abbrev pub retry :
      ℕ
      → ℕ
      → Option String
      → Result (List AllocatedBuffer) × List A
      → Master A
      → Result (List AllocatedBuffer) × Master A
  retry size replica_num preferred (ok buffers, after) m =
      (ok buffers, record m { allocators = after })
  retry size replica_num preferred (err no_available_segment, after) m =
      let evicted =
        evict_to_fit (min (size * replica_num) u64_max) (record m { allocators = after }) in
      let placed = D.place evicted.1.allocators size replica_num preferred [] in
      (placed.0, record (evicted.1) { allocators = placed.1 })
  retry size replica_num preferred (err e, after) m = (err e, record m { allocators = after })

  -- Allocate, and on exhaustion evict and retry once.
  unfoldable pub allocate_replicas :
      ℕ → ℕ → Option String → Master A → Result (List AllocatedBuffer) × Master A
  unfolding evict_if_needed evict_to_fit
  allocate_replicas size replica_num preferred m =
      let m' = (evict_if_needed m).1 in
      retry size replica_num preferred (D.place m'.allocators size replica_num preferred []) m'
