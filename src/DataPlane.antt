-- ===== src/DataPlane.antt =====
-- crates/quillcache-store/src/lib.rs: StoreDataPlane, the tiers of every worker, and the byte pools that
-- follow them. What a worker holds is listed in its cache, with the tier that the policy gives it.
pub mod Ops
pub mod Place
pub mod Calls
pub mod Rounds
pub mod Fits
pub mod Kept
pub mod Metrics
mod Examples
use quillcache.Prelude.{
  ℕ, zero, suc, ◌+◌, ◌-◌, ◌*◌, ◌/◌, ◌%◌, ◌^◌, ◌≤◌, ◌<◌, min, max, String, ◌≡◌, refl, sym, ap, ◌∙◌,
  subst, ◌≢◌, ◌↔◌, ◌⊎◌, inl, inr, Bool, true, false, not, ◌&&◌, ◌||◌, false≢true, Option, none,
  some, List, [], ◌∷◌, ◌++◌, map, arith, str_eq, eq_iff, ltb, leb, ◌==◌, if◌then◌else◌, ltb→lt,
  lt→ltb, leb→le, ==_iff, Bool-cases, Option-cases, length, get_elem?, set, get_or, take, drop,
  replicate, remove_at, keep, any, All, length-append, length-set, length-keep-le, length-map,
  length-take-le, take-append, drop-append, All-append, u64_mod, u64_max, u32_mod, add64, sub64,
  mul64, add32, sub32,
}
use quillcache.Identity.{KvBlockKey}
use quillcache.StrMap.{StrMap}
use quillcache.KeyMap.{KeyMap}
use quillcache.BlockStore.{
  CacheTier, hbm, remote_hbm, cpu_dram, local_ssd, object_store, LocalKvStore,
}
use quillcache.MemoryIndex.{CacheResidency}
use quillcache.Cost.{CostModel}

pub record StoreTierConfig : Type 0 where
  pub hbm_capacity_bytes : ℕ
  pub cpu_dram_capacity_bytes : ℕ
  pub local_ssd_capacity_bytes : ℕ

pub record TierEntry : Type 0 where
  pub residency : CacheResidency
  pub last_access : ℕ

pub record WorkerCache : Type 0 where
  pub entries : KeyMap KvBlockKey TierEntry
  pub clock : ℕ

-- crates/quillcache-core/src/lib.rs: what a call of the data plane did.
pub data DataPlaneActionKind : Type 0 where
  admit hit promote demote evict remove_kind : DataPlaneActionKind

pub record DataPlaneAction : Type 0 where
  pub kind : DataPlaneActionKind
  pub worker_id : String
  pub key : KvBlockKey
  pub from_tier : Option CacheTier
  pub to_tier : Option CacheTier
  pub bytes : ℕ
  pub estimated_us : ℕ

pub record DataPlaneUpdate : Type 0 where
  pub actions : List DataPlaneAction
  pub resident : List CacheResidency
  pub removed : List CacheResidency

pub record StoreDataPlane : Type 0 where
  pub config : StoreTierConfig
  pub workers : StrMap WorkerCache
  pub byte_pools : StrMap LocalKvStore
  pub cost : CostModel
  pub admits : ℕ
  pub hits : ℕ
  pub promotions : ℕ
  pub demotions : ℕ
  pub evictions : ℕ

unfoldable pub capacity : StoreTierConfig → CacheTier → ℕ
capacity config hbm = config.hbm_capacity_bytes
capacity config remote_hbm = 0
capacity config cpu_dram = config.cpu_dram_capacity_bytes
capacity config local_ssd = config.local_ssd_capacity_bytes
capacity config object_store = 0

unfoldable pub lower_tier : CacheTier → Option CacheTier
lower_tier hbm = some cpu_dram
lower_tier remote_hbm = none
lower_tier cpu_dram = some local_ssd
lower_tier local_ssd = none
lower_tier object_store = none

unfoldable pub tier_rank : CacheTier → ℕ
tier_rank hbm = 0
tier_rank remote_hbm = 1
tier_rank cpu_dram = 2
tier_rank local_ssd = 3
tier_rank object_store = 4
