-- ===== src/Master.antt =====
-- crates/quillcache-store/src/master_service.rs: the control plane of the store. The locks only
-- order the accesses of one call, so an operation is a function of the master's state.
pub mod Segments
pub mod Evict
pub mod Objects
pub mod Rewrite
pub mod Recovery
pub mod Guard
pub mod Candidates
pub mod Eviction
pub mod TwoPhase
pub mod Batch
pub mod ReserveTwice
pub mod Replay
mod Examples
use quillcache.Prelude.{
  ℕ, zero, suc, ◌+◌, ◌-◌, ◌*◌, ◌/◌, ◌%◌, ◌^◌, ◌≤◌, ◌<◌, min, max, String, ◌≡◌, refl, sym, ap, ◌∙◌,
  subst, ◌≢◌, ◌↔◌, ◌⊎◌, inl, inr, Bool, true, false, not, ◌&&◌, ◌||◌, false≢true, Option, none,
  some, List, [], ◌∷◌, ◌++◌, map, arith, str_eq, eq_iff, ltb, leb, ◌==◌, if◌then◌else◌, ltb→lt,
  lt→ltb, leb→le, ==_iff, Bool-cases, Option-cases, length, get_elem?, set, get_or, take, drop,
  replicate, remove_at, keep, any, All, length-append, length-set, length-keep-le, length-map,
  length-take-le, take-append, drop-append, All-append, u64_mod, u64_max, u32_mod, add64, sub64,
  mul64, add32, sub32,
}
use quillcache.Identity.{IdentityScope}
use quillcache.StrMap.{StrMap}
use quillcache.Allocator.{AllocatedBuffer}
use quillcache.Allocator.Interface.{BufferAllocator}
use quillcache.Types.{Result}
use quillcache.Sketch.{CountMinSketch}
use quillcache.Replica.{Replica, ReplicaList, is_complete}

pub record ObjectMetadata : Type 0 where
  pub replicas : ReplicaList
  pub identity : IdentityScope
  pub lease_until : ℕ
  pub last_access : ℕ
  pub soft_pinned : Bool
  pub hard_pinned : Bool

unfoldable pub has_complete_replica : ObjectMetadata → Bool
has_complete_replica o = any is_complete o.replicas

-- crates/quillcache-store/src/op_log.rs: the durable mutations.
pub data OpLogEntry : Type 0 where
  segment_mounted : String → ℕ → OpLogEntry
  segment_unmounted : String → OpLogEntry
  put_committed : String → IdentityScope → List Replica → Bool → Bool → OpLogEntry
  removed : String → OpLogEntry

-- The state; `allocators`, `next_replica_id` are the `SegmentState`. The sharded object map is one
-- map, and the op-log, where there is one, is the list of the entries that it holds.
pub record Master (A : Type 0) : Type 0 where
  pub objects : StrMap ObjectMetadata
  pub allocators : List A
  pub next_replica_id : ℕ
  pub clock : ℕ
  pub lease_ttl : ℕ
  pub segment_heartbeat : StrMap ℕ
  pub segment_ttl : ℕ
  pub segment_owner : StrMap String
  pub hotness : CountMinSketch
  pub oplog : Option (List OpLogEntry)

-- What an operation uses of other code: the segment allocators, the allocation strategy, the
-- floating-point watermarks, `below_watermark allocated capacity` and `eviction_target capacity`,
-- and the standard library's hash of a key.
pub record Deps (A : Type 0) : Type 0 where
  pub ops : BufferAllocator A
  pub place : List A → ℕ → ℕ → Option String → List String → Result (List AllocatedBuffer) × List A
  pub below_watermark : ℕ → ℕ → Bool
  pub eviction_target : ℕ → ℕ
  pub base_hash : String → ℕ
