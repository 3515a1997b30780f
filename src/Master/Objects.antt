-- ===== src/Master/Objects.antt =====
-- The two-phase Put, the guarded read and remove of
-- crates/quillcache-store/src/master_service.rs.
use quillcache.Prelude.{
  ℕ, String, Bool, true, false, not, ◌&&◌, none, some, List, [], ◌∷◌, ltb, if◌then◌else◌, keep,
  add64, add32,
}
use quillcache.Identity.{IdentityScope, reuse_violation_against}
use quillcache.StrMap.{StrMap, lookup, insert, remove}
use quillcache.Allocator.{AllocatedBuffer}
use quillcache.Allocator.Interface.{BufferAllocator}
use quillcache.Types.{
  Result, ok, err, ReplicateConfig, object_not_found, object_already_exists, object_not_ready,
  unsafe_reuse,
}
use quillcache.Replica.{
  Replica, ReplicaList, ReplicaStatus, ReplicaData, memory, disk, initialized, complete,
  data_segment_name, data_size, is_complete,
}
use quillcache.Replica
use quillcache.Sketch.{increment, count}
use quillcache.Master.{
  Master, Deps, ObjectMetadata, OpLogEntry, removed, put_committed, has_complete_replica,
}
use quillcache.Master.Segments.{log_op, recent}
use quillcache.Master.Evict.{free_replicas, allocate_replicas}

-- The fresh replicas of the buffers, with ids from `id` on, and the next id.
unfoldable pub fresh_replicas : ℕ → List AllocatedBuffer → ReplicaList × ℕ
unfolding Replica.create
fresh_replicas id [] = ([], id)
fresh_replicas id (b ∷ bs) =
    let rest = fresh_replicas (add32 id 1) bs in (Replica.create id (memory b) ∷ rest.0, rest.1)

-- Every replica with the status.
abbrev pub with_status : ReplicaStatus → ReplicaList → ReplicaList
with_status status [] = []
with_status status (r ∷ rs) = record r { status = status } ∷ with_status status rs

-- Whether the replica's segment, if it has one, is alive.
abbrev pub served : ℕ → ℕ → StrMap ℕ → Replica → Bool
served ttl now hb r = elim (data_segment_name r.content) [
  | none ↦ true
  | some seg ↦ elim (lookup seg hb) [ none ↦ false | some last ↦ recent ttl now last ]
]

-- The complete replicas on living segments.
unfoldable pub readable : ℕ → ℕ → StrMap ℕ → ReplicaList → List Replica
unfolding data_segment_name lookup
readable ttl now hb rs = keep (served ttl now hb) (keep is_complete rs)

-- The buffers of the memory replicas.
unfoldable pub buffers_of : ReplicaList → List AllocatedBuffer
buffers_of [] = []
buffers_of (r ∷ rs) =
    let rest = buffers_of rs in elim r.content [ memory b ↦ b ∷ rest | disk p n ↦ rest ]

abbrev pub first_size : ReplicaList → ℕ
first_size [] = 0
first_size (r ∷ rs) = data_size r.content

abbrev pub commit_entry : String → ObjectMetadata → OpLogEntry
commit_entry key o = put_committed key o.identity o.replicas o.soft_pinned o.hard_pinned

module _ {A : Type 0} where
  unfoldable pub exist_key : String → Master A → Bool
  unfolding lookup has_complete_replica
  exist_key key m = elim (lookup key m.objects) [ none ↦ false | some o ↦ has_complete_replica o ]

  unfoldable pub put_end : String → Master A → Result (Unit {0}) × Master A
  unfolding lookup insert log_op
  put_end key m = elim (lookup key m.objects) [
    | none ↦ (err object_not_found, m)
    | some o ↦
        let o' = record o { replicas = with_status complete o.replicas } in
        (ok tt, log_op (commit_entry key o') (record m { objects = insert key o' m.objects }))
  ]

  unfoldable pub batch_put_end : List String → Master A → Result (Unit {0}) × Master A
  unfolding put_end
  batch_put_end [] m = (ok tt, m)
  batch_put_end (key ∷ keys) m =
      let (r, m') = put_end key m in elim r [ err e ↦ (err e, m') | ok u ↦ batch_put_end keys m' ]

module _ {A : Type 0} (B : BufferAllocator A) where
  unfoldable pub put_revoke : String → Master A → Result (Unit {0}) × Master A
  unfolding lookup remove free_replicas
  put_revoke key m = elim (lookup key m.objects) [
    | none ↦ (err object_not_found, m)
    | some o ↦ (
      ok tt,
      record m {
        objects = remove key m.objects;
        allocators = free_replicas B o.replicas m.allocators;
      },
    )
  ]

  unfoldable pub batch_put_revoke : List String → Master A → Result (Unit {0}) × Master A
  unfolding put_revoke
  batch_put_revoke [] m = (ok tt, m)
  batch_put_revoke (key ∷ keys) m =
      let (r, m') = put_revoke key m in
      elim r [ err e ↦ (err e, m') | ok u ↦ batch_put_revoke keys m' ]

  unfoldable pub remove_object : String → Bool → Master A → Result (Unit {0}) × Master A
  unfolding lookup remove free_replicas log_op
  remove_object key force m = elim (lookup key m.objects) [
    | none ↦ (err object_not_found, m)
    | some o ↦ if ltb m.clock o.lease_until && not force then (err object_not_ready, m) else (
      ok tt,
      log_op (removed key) (record m {
        objects = remove key m.objects;
        allocators = free_replicas B o.replicas m.allocators;
      }),
    )
  ]

abbrev pub with_replicas {ℓ} :
    {S : Type ℓ}
    → List Replica
    → Result (List (List Replica)) × S
    → Result (List (List Replica)) × S
with_replicas rs (ok rss, m) = (ok (rs ∷ rss), m)
with_replicas rs (err e, m) = (err e, m)

module _ {A : Type 0} (D : Deps A) where
  -- Every read, refused or not, bumps the access sketch.
  unfoldable pub touch : String → Master A → Master A
  unfolding increment
  touch key m = record m { hotness = (increment D.base_hash key m.hotness).1 }

  unfoldable pub hotness : Master A → String → ℕ
  unfolding count
  hotness m key = count D.base_hash key m.hotness

  -- The read of the object, once the access is counted.
  unfoldable pub read : String → IdentityScope → Master A → Result (List Replica) × Master A
  unfolding lookup insert reuse_violation_against readable
  read key requester m = elim (lookup key m.objects) [
    | none ↦ (err object_not_found, m)
    | some o ↦ elim (reuse_violation_against o.identity requester) [
      | some violation ↦ (err (unsafe_reuse violation), m)
      | none ↦ elim (readable m.segment_ttl m.clock m.segment_heartbeat o.replicas) [
        | [] ↦ (err object_not_ready, m)
        | r ∷ rs ↦ (
          ok (r ∷ rs),
          record m {
            objects =
                insert key
                  (record o { last_access = m.clock; lease_until = add64 m.clock m.lease_ttl })
                  m.objects;
          },
        )
      ]
    ]
  ]

  unfoldable pub get_replica_list :
      String → IdentityScope → Master A → Result (List Replica) × Master A
  unfolding touch read
  get_replica_list key requester m = read key requester (touch key m)

  unfoldable pub batch_get_replica_list :
      List String → IdentityScope → Master A → Result (List (List Replica)) × Master A
  unfolding get_replica_list
  batch_get_replica_list [] requester m = (ok [], m)
  batch_get_replica_list (key ∷ keys) requester m =
      let (r, m') = get_replica_list key requester m in
      elim r [
        | err e ↦ (err e, m')
        | ok rs ↦ with_replicas rs (batch_get_replica_list keys requester m')
      ]

  -- An in-flight leftover under the key is freed; a complete object blocks the Put.
  unfoldable pub reclaim : String → Master A → Result (Unit {0}) × Master A
  unfolding lookup remove free_replicas has_complete_replica
  reclaim key m = elim (lookup key m.objects) [
    | none ↦ (ok tt, m)
    | some o ↦ if has_complete_replica o then (err object_already_exists, m) else (
      ok tt,
      record m {
        objects = remove key m.objects;
        allocators = free_replicas D.ops o.replicas m.allocators;
      },
    )
  ]

  -- Record the object whose replicas were allocated.
  unfoldable pub record_put :
      String
      → IdentityScope
      → ReplicateConfig
      → Result (List AllocatedBuffer) × Master A
      → Result (List AllocatedBuffer) × Master A
  unfolding fresh_replicas insert
  record_put key identity config (err e, m) = (err e, m)
  record_put key identity config (ok buffers, m) =
      let fresh = fresh_replicas m.next_replica_id buffers in
      let o : ObjectMetadata = record {
        replicas = fresh.0;
        identity = identity;
        lease_until = 0;
        last_access = m.clock;
        soft_pinned = config.with_soft_pin;
        hard_pinned = config.with_hard_pin;
      } in
      (ok buffers, record m { objects = insert key o m.objects; next_replica_id = fresh.1 })

  -- The rest of `put_start` after its check for duplicates.
  unfoldable pub start :
      String
      → IdentityScope
      → ℕ
      → ReplicateConfig
      → Result (Unit {0}) × Master A
      → Result (List AllocatedBuffer) × Master A
  unfolding allocate_replicas record_put
  start key identity size config (err e, m) = (err e, m)
  start key identity size config (ok u, m) =
      record_put key identity config
        (allocate_replicas D size config.replica_num config.preferred_segment m)

  unfoldable pub put_start :
      String
      → IdentityScope
      → ℕ
      → ReplicateConfig
      → Master A
      → Result (List AllocatedBuffer) × Master A
  unfolding reclaim start
  put_start key identity size config m = start key identity size config (reclaim key m)
