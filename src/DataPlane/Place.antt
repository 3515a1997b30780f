-- ===== src/DataPlane/Place.antt =====
-- A placement in crates/quillcache-store/src/lib.rs: StoreDataPlane::place.
use quillcache.Prelude.{
  ℕ, ◌+◌, String, Bool, true, Option, none, some, List, [], ◌∷◌, ltb, if◌then◌else◌,
}
use quillcache.Identity.{KvBlockKey}
use quillcache.StrMap.{lookup, insert, remove}
use quillcache.KeyMap.{KeyMap, find, put, delete}
use quillcache.BlockStore.{CacheTier, Bytes, block_key, DiskWrite}
use quillcache.MemoryIndex.{CacheResidency, tier_eq}
use quillcache.Cost.{transfer_cost_us}
use quillcache.DataPlane.{
  TierEntry, WorkerCache, DataPlaneActionKind, admit, hit, promote, demote, DataPlaneAction,
  DataPlaneUpdate, StoreDataPlane, tier_rank,
}
use quillcache.DataPlane.Ops.{Sweep, enforce_capacity}

module _ (worker_id : String) where
  abbrev pub cache_of : StoreDataPlane → WorkerCache
  cache_of plane = elim (lookup worker_id plane.workers) [
    | none ↦ record { entries = []; clock = 0 }
    | some worker ↦ worker
  ]

  -- What a placement is to the entry that was there.
  unfoldable pub counted :
      CacheResidency → Option TierEntry → StoreDataPlane → DataPlaneAction × StoreDataPlane
  unfolding tier_rank transfer_cost_us
  counted r none plane = (
    record {
      kind = admit;
      worker_id = worker_id;
      key = r.key;
      from_tier = none;
      to_tier = some r.tier;
      bytes = r.bytes;
      estimated_us = 0;
    },
    record plane { admits = plane.admits + 1 },
  )
  counted r (some existing) plane =
      let from_tier = existing.residency.tier in
      let act : DataPlaneActionKind → CacheTier → DataPlaneAction = λ kind tier. record {
        kind = kind;
        worker_id = worker_id;
        key = r.key;
        from_tier = some from_tier;
        to_tier = some r.tier;
        bytes = r.bytes;
        estimated_us = transfer_cost_us plane.cost tier r.bytes true true;
      } in
      if tier_eq from_tier r.tier
      then (act hit r.tier, record plane { hits = plane.hits + 1 })
      else if ltb (tier_rank r.tier) (tier_rank from_tier)
      then (act promote from_tier, record plane { promotions = plane.promotions + 1 })
      else (act demote from_tier, record plane { demotions = plane.demotions + 1 })

abbrev pub resident_of : List KvBlockKey → KeyMap KvBlockKey TierEntry → List CacheResidency
resident_of [] entries = []
resident_of (k ∷ ks) entries =
    let rest = resident_of ks entries in
    elim (find k entries) [ none ↦ rest | some e ↦ e.residency ∷ rest ]

-- The entry of a placement in the cache of its worker, before the capacities are enforced.
unfoldable pub admitted : CacheResidency → StoreDataPlane → Sweep
unfolding lookup remove find put delete counted
admitted r plane =
    let worker = cache_of r.worker_id plane in
    let now = worker.clock + 1 in
    let placed = record r { last_access_ms = now } in
    let (act, plane') =
      counted r.worker_id placed (find r.key worker.entries)
        (record plane { workers = remove r.worker_id plane.workers }) in
    record {
      plane = plane';
      worker = record {
        entries =
            put r.key (record { residency = placed; last_access = now })
              (delete r.key worker.entries);
        clock = now;
      };
      actions = act ∷ [];
      removed = [];
      affected = r.key ∷ [];
    }

module _ (crc32 : Bytes → ℕ) (write : String → ℕ → DiskWrite) (logged : KvBlockKey → Bool) where
  unfoldable pub place : CacheResidency → StoreDataPlane → DataPlaneUpdate × StoreDataPlane
  unfolding admitted enforce_capacity find insert
  place r plane =
      let w = enforce_capacity crc32 write logged r.worker_id (admitted r plane) in
      (
        record {
          actions = w.actions;
          resident = resident_of w.affected w.worker.entries;
          removed = w.removed;
        },
        record (w.plane) { workers = insert r.worker_id w.worker w.plane.workers },
      )
