-- ===== src/DataPlane/Ops.antt =====
-- The moves of crates/quillcache-store/src/lib.rs: StoreDataPlane::enforce_capacity.
use quillcache.Prelude.{
  ℕ, zero, suc, ◌+◌, ◌%◌, String, Bool, true, false, Option, none, some, List, [], ◌∷◌, ◌++◌, ltb,
  if◌then◌else◌, length, u64_mod,
}
use quillcache.Identity.{KvBlockKey}
use quillcache.StrMap.{lookup, insert}
use quillcache.KeyMap.{KeyMap, find, put, delete}
use quillcache.KeyMap.Laws.{total}
use quillcache.BlockStore.{
  CacheTier, hbm, cpu_dram, local_ssd, is_ssd, Bytes, block_key, LocalKvStore, DiskWrite,
}
use quillcache.BlockStore.Ops.{demote_to_ssd, drop_block}
use quillcache.BlockStore.Policy.{coldest}
use quillcache.MemoryIndex.{CacheResidency, tier_eq}
use quillcache.MemoryIndex.Buckets.{insert_key}
use quillcache.Cost.{CostModel, transfer_cost_us}
use quillcache.DataPlane.{
  TierEntry, WorkerCache, DataPlaneActionKind, demote, evict, DataPlaneAction, StoreDataPlane,
  capacity, lower_tier,
}

abbrev pub in_tier : CacheTier → TierEntry → Bool
in_tier tier entry = tier_eq entry.residency.tier tier

abbrev pub size_in : CacheTier → TierEntry → ℕ
size_in tier entry = if in_tier tier entry then entry.residency.bytes else 0

-- The sum wraps at 64 bits.
unfoldable pub tier_bytes : CacheTier → KeyMap KvBlockKey TierEntry → ℕ
unfolding total
tier_bytes tier entries = total (size_in tier) entries % u64_mod

unfoldable pub coldest_in_tier : CacheTier → KeyMap KvBlockKey TierEntry → Option KvBlockKey
unfolding coldest
coldest_in_tier tier entries = elim (coldest (in_tier tier) (λ e. e.last_access) entries) [
  | none ↦ none
  | some (k, a) ↦ some k
]

-- `to_tier.or(from_tier)`.
abbrev pub costed : Option CacheTier → Option CacheTier → Option CacheTier
costed (some to_tier) from_tier = some to_tier
costed none from_tier = from_tier

abbrev pub estimate : CostModel → Option CacheTier → ℕ → ℕ
estimate cost none bytes = 0
estimate cost (some tier) bytes = transfer_cost_us cost tier bytes true true

unfoldable pub action :
    CostModel
    → DataPlaneActionKind
    → CacheResidency
    → Option CacheTier
    → Option CacheTier
    → DataPlaneAction
unfolding transfer_cost_us
action cost kind r from_tier to_tier = record {
  kind = kind;
  worker_id = r.worker_id;
  key = r.key;
  from_tier = from_tier;
  to_tier = to_tier;
  bytes = r.bytes;
  estimated_us = estimate cost (costed to_tier from_tier) r.bytes;
}

-- What `enforce_capacity` works on: the plane, the cache that `place` took out of it, the update and
-- the keys that are affected.
pub record Sweep : Type 0 where
  pub plane : StoreDataPlane
  pub worker : WorkerCache
  pub actions : List DataPlaneAction
  pub removed : List CacheResidency
  pub affected : List KvBlockKey

unfoldable pub with_pool : String → (LocalKvStore → LocalKvStore) → StoreDataPlane → StoreDataPlane
unfolding lookup insert
with_pool worker_id f plane = elim (lookup worker_id plane.byte_pools) [
  | none ↦ plane
  | some pool ↦ record plane { byte_pools = insert worker_id (f pool) plane.byte_pools }
]

-- The disk of the pool of each worker, by how its writes end.
module _ (crc32 : Bytes → ℕ) (write : String → ℕ → DiskWrite) (logged : KvBlockKey → Bool)
    (worker_id : String) where
  abbrev pub demoted_pool : CacheTier → KvBlockKey → StoreDataPlane → StoreDataPlane
  demoted_pool next key plane =
      if is_ssd next
      then with_pool worker_id (λ pool. (demote_to_ssd crc32 (write worker_id) key pool).1) plane
      else plane

  -- A victim moves to the next tier, or out.
  unfoldable pub push_down : CacheTier → KvBlockKey → TierEntry → Sweep → Sweep
  unfolding lower_tier action with_pool demote_to_ssd drop_block find put delete
  push_down tier key victim w = elim (lower_tier tier) [
    | some next ↦
        let old = victim.residency in
        let moved = record old { tier = next; worker_id = worker_id } in
        record {
          plane = demoted_pool next key (record (w.plane) { demotions = w.plane.demotions + 1 });
          worker = record (w.worker) {
            entries =
                put key (record { residency = moved; last_access = w.worker.clock })
                  (delete key w.worker.entries);
          };
          actions = w.actions ++ action w.plane.cost demote moved (some old.tier) (some next) ∷ [];
          removed = w.removed;
          affected = insert_key key w.affected;
        }
    | none ↦
        let old = victim.residency in
        record {
          plane =
              with_pool worker_id (λ pool. (drop_block (logged key) key pool).1)
                (record (w.plane) { evictions = w.plane.evictions + 1 });
          worker = record (w.worker) { entries = delete key w.worker.entries };
          actions = w.actions ++ action w.plane.cost evict old (some old.tier) none ∷ [];
          removed = w.removed ++ old ∷ [];
          affected = insert_key key w.affected;
        }
  ]

  unfoldable pub tier_loop : CacheTier → ℕ → Sweep → Sweep
  unfolding tier_bytes capacity coldest_in_tier find push_down
  tier_loop tier zero w = w
  tier_loop tier (suc fuel) w =
      elim (ltb (capacity w.plane.config tier) (tier_bytes tier w.worker.entries)) [
        | false ↦ w
        | true ↦ elim (coldest_in_tier tier w.worker.entries) [
          | none ↦ w
          | some key ↦ elim (find key w.worker.entries) [
            | none ↦ w
            | some victim ↦ tier_loop tier fuel (push_down tier key victim w)
          ]
        ]
      ]

  -- Each round takes an entry out of the tier, so there are no more rounds than entries.
  abbrev pub sweep_tier : CacheTier → Sweep → Sweep
  sweep_tier tier w = tier_loop tier (length w.worker.entries + 1) w

  unfoldable pub enforce_capacity : Sweep → Sweep
  unfolding tier_loop
  enforce_capacity w = sweep_tier local_ssd (sweep_tier cpu_dram (sweep_tier hbm w))
