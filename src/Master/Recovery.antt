-- ===== src/Master/Recovery.antt =====
-- Snapshot, recovery and op-log replay in crates/quillcache-store/src/master_service.rs.
use quillcache.Prelude.{
  ℕ, max, String, Bool, none, some, List, [], ◌∷◌, map, str_eq, if◌then◌else◌, add32,
}
use quillcache.Identity.{IdentityScope}
use quillcache.StrMap.{lookup, insert, remove}
use quillcache.Sketch
use quillcache.Sketch.{CountMinSketch}
use quillcache.Allocator.{AllocatedBuffer}
use quillcache.Allocator.Interface.{BufferAllocator}
use quillcache.Types.{Result, ok, err, segment_not_found, invalid_replica}
use quillcache.Replica
use quillcache.Replica.{Replica, ReplicaList, ReplicaData, memory, disk}
use quillcache.Master.{
  Master, ObjectMetadata, OpLogEntry, removed, put_committed, segment_mounted, segment_unmounted,
}
use quillcache.Master.Segments.{mount_segment, unmount_segment}
use quillcache.Master.Evict.{free_replicas}

pub record SegmentSnapshot : Type 0 where
  pub name : String
  pub capacity : ℕ

pub record ObjectSnapshot : Type 0 where
  pub key : String
  pub replicas : List Replica
  pub identity : IdentityScope
  pub lease_until : ℕ
  pub last_access : ℕ
  pub soft_pinned : Bool
  pub hard_pinned : Bool

-- The version, the strategy's name and the floating-point watermarks are constants of a master.
pub record MasterSnapshot : Type 0 where
  pub clock : ℕ
  pub lease_ttl : ℕ
  pub segment_ttl : ℕ
  pub next_replica_id : ℕ
  pub segments : List SegmentSnapshot
  pub objects : List ObjectSnapshot

abbrev pub object_snapshot : String × ObjectMetadata → ObjectSnapshot
object_snapshot (key, o) = record {
  key = key;
  replicas = o.replicas;
  identity = o.identity;
  lease_until = o.lease_until;
  last_access = o.last_access;
  soft_pinned = o.soft_pinned;
  hard_pinned = o.hard_pinned;
}

-- `HashMap::insert` of every replica under its id.
unfoldable pub rebuild : ReplicaList → List Replica → ReplicaList
unfolding Replica.insert
rebuild acc [] = acc
rebuild acc (r ∷ rs) = rebuild (Replica.insert r acc) rs

module _ {A : Type 0} where
  -- `MasterService::new`.
  unfoldable pub create : Master A
  unfolding Sketch.create
  create = record {
    objects = [];
    allocators = [];
    next_replica_id = 0;
    clock = 0;
    lease_ttl = 5;
    segment_heartbeat = [];
    segment_ttl = 0;
    segment_owner = [];
    hotness = Sketch.create Sketch.default_width Sketch.default_depth;
    oplog = none;
  }

module _ {A : Type 0} (B : BufferAllocator A) where
  unfoldable pub snapshot : Master A → MasterSnapshot
  snapshot m = record {
    clock = m.clock;
    lease_ttl = m.lease_ttl;
    segment_ttl = m.segment_ttl;
    next_replica_id = m.next_replica_id;
    segments = map (λ a. record { name = B.segment_name a; capacity = B.capacity a }) m.allocators;
    objects = map object_snapshot m.objects;
  }

  -- `reserve` in the first segment of the buffer's name.
  unfoldable pub reserve_in : AllocatedBuffer → List A → Result (List A)
  reserve_in buffer [] = err segment_not_found
  reserve_in buffer (a ∷ others) =
      let rest = reserve_in buffer others in
      if str_eq (B.segment_name a) buffer.segment_name
      then elim (B.reserve a buffer.offset buffer.size) [
        | none ↦ err invalid_replica
        | some a' ↦ ok (a' ∷ others)
      ]
      else elim rest [ ok others' ↦ ok (a ∷ others') | err e ↦ err e ]

  unfoldable pub reserve_one : ReplicaData → List A → Result (List A)
  unfolding reserve_in
  reserve_one (memory buffer) allocators = reserve_in buffer allocators
  reserve_one (disk file_path object_size) allocators = ok allocators

  unfoldable pub reserve_all : List Replica → List A → Result (List A)
  unfolding reserve_one
  reserve_all [] allocators = ok allocators
  reserve_all (r ∷ rs) allocators = elim (reserve_one r.content allocators) [
    | err e ↦ err e
    | ok after ↦ reserve_all rs after
  ]

  unfoldable pub mount_all : List SegmentSnapshot → Master A → Master A
  unfolding mount_segment
  mount_all [] m = m
  mount_all (s ∷ ss) m = mount_all ss (mount_segment B s.name s.capacity m)

  unfoldable pub restore : List ObjectSnapshot → Master A → Result (Master A)
  unfolding reserve_all rebuild insert
  restore [] m = ok m
  restore (s ∷ ss) m = elim (reserve_all s.replicas m.allocators) [
    | err e ↦ err e
    | ok after ↦
        let o : ObjectMetadata = record {
          replicas = rebuild [] s.replicas;
          identity = s.identity;
          lease_until = s.lease_until;
          last_access = s.last_access;
          soft_pinned = s.soft_pinned;
          hard_pinned = s.hard_pinned;
        } in
        restore ss (record m { allocators = after; objects = insert s.key o m.objects })
  ]

  unfoldable pub recover : MasterSnapshot → Result (Master A)
  unfolding create mount_all restore
  recover s =
      let start = record create {
        clock = s.clock;
        segment_ttl = s.segment_ttl;
        lease_ttl = s.lease_ttl;
      } in
      elim (restore s.objects (mount_all s.segments start)) [
        | err e ↦ err e
        | ok m ↦ ok (record m { next_replica_id = s.next_replica_id })
      ]

  -- The ids of the committed replicas stay below the next id.
  unfoldable pub next_after : ℕ → List Replica → ℕ
  next_after id [] = id
  next_after id (r ∷ rs) = next_after (max id (add32 r.id 1)) rs

  unfoldable pub apply_op : OpLogEntry → Master A → Result (Master A)
  unfolding mount_segment unmount_segment lookup remove free_replicas reserve_all next_after rebuild
      insert
  apply_op (segment_mounted name capacity) m = ok (mount_segment B name capacity m)
  apply_op (segment_unmounted name) m = ok (unmount_segment B name m).1
  apply_op (removed key) m = elim (lookup key m.objects) [
    | none ↦ ok m
    | some o ↦ ok (record m {
      objects = remove key m.objects;
      allocators = free_replicas B o.replicas m.allocators;
    })
  ]
  apply_op (put_committed key identity replicas soft_pinned hard_pinned) m =
      elim (reserve_all replicas m.allocators) [
        | err e ↦ err e
        | ok after ↦
            let o : ObjectMetadata = record {
              replicas = rebuild [] replicas;
              identity = identity;
              lease_until = 0;
              last_access = m.clock;
              soft_pinned = soft_pinned;
              hard_pinned = hard_pinned;
            } in
            ok (record m {
              allocators = after;
              next_replica_id = next_after m.next_replica_id replicas;
              objects = insert key o m.objects;
            })
      ]

  unfoldable pub replay : List OpLogEntry → Master A → Result (Master A)
  unfolding apply_op
  replay [] m = ok m
  replay (e ∷ es) m = elim (apply_op e m) [ err c ↦ err c | ok m' ↦ replay es m' ]

  -- `recover_from_oplog`, on the entries that the log yields.
  unfoldable pub recover_from_oplog : List OpLogEntry → Result (Master A)
  unfolding create replay
  recover_from_oplog entries = replay entries create
