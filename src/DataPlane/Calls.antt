-- ===== src/DataPlane/Calls.antt =====
-- The other calls of crates/quillcache-store/src/lib.rs: StoreDataPlane::put, get, tier_of,
-- fetch_cost_us, remove_block and clear_worker.
use quillcache.Prelude.{
  ℕ, String, Bool, true, false, ◌&&◌, Option, none, some, List, [], ◌∷◌, ◌++◌, map, str_eq, length,
  keep, u64_max,
}
use quillcache.Identity.{KvBlockKey, IdentityScope, scope_matches}
use quillcache.StrMap.{lookup, insert, remove}
use quillcache.KeyMap.{find, delete}
use quillcache.BlockStore.{CacheTier, cpu_dram, Bytes, block_key, Disk, DiskWrite, create}
use quillcache.BlockStore.Ops.{put_dram, drop_block}
use quillcache.MemoryIndex.{CacheResidency}
use quillcache.Cost.{transfer_cost_us}
use quillcache.DataPlane.{
  TierEntry, WorkerCache, remove_kind, DataPlaneAction, DataPlaneUpdate, StoreDataPlane,
}
use quillcache.BlockStore.Serve.{Answer, refused, get_block}
use quillcache.BlockStore.{not_found}
use quillcache.DataPlane.Ops.{with_pool}
use quillcache.DataPlane.Place.{place}

unfoldable pub tier_of : String → KvBlockKey → StoreDataPlane → Option CacheTier
unfolding lookup find
tier_of worker_id key plane = elim (lookup worker_id plane.workers) [
  | none ↦ none
  | some worker ↦ elim (find key worker.entries) [ none ↦ none | some e ↦ some e.residency.tier ]
]

unfoldable pub fetch_cost_us : String → KvBlockKey → StoreDataPlane → Option ℕ
unfolding lookup find transfer_cost_us
fetch_cost_us worker_id key plane = elim (lookup worker_id plane.workers) [
  | none ↦ none
  | some worker ↦ elim (find key worker.entries) [
    | none ↦ none
    | some e ↦ some (transfer_cost_us plane.cost e.residency.tier e.residency.bytes true true)
  ]
]

-- The pool answers as a store of its own.
unfoldable pub get_bytes : String → KvBlockKey → StoreDataPlane → Answer × StoreDataPlane
unfolding lookup insert get_block
get_bytes worker_id key plane = elim (lookup worker_id plane.byte_pools) [
  | none ↦ (refused not_found, plane)
  | some pool ↦
      let (answer, pool') = get_block key pool in
      (answer, record plane { byte_pools = insert worker_id pool' plane.byte_pools })
]

-- `byte_pool_mut`: what is in the directory of a worker, if it can be made, is the disk of a new pool.
unfoldable pub with_new_pool :
    (String → Option Disk) → String → StoreDataPlane → Option StoreDataPlane
unfolding lookup insert create
with_new_pool dir worker_id plane = elim (lookup worker_id plane.byte_pools) [
  | some pool ↦ some plane
  | none ↦ elim (dir worker_id) [
    | none ↦ none
    | some disk ↦ some (record plane {
      byte_pools = insert worker_id (create disk u64_max u64_max) plane.byte_pools;
    })
  ]
]

module _ (crc32 : Bytes → ℕ) (write : String → ℕ → DiskWrite) (logged : KvBlockKey → Bool) where
  -- The bytes go into the pool, and their residency is placed.
  unfoldable pub put_bytes :
      (String → Option Disk) → String → KvBlockKey → Bytes → StoreDataPlane → Option StoreDataPlane
  unfolding with_new_pool with_pool put_dram place
  put_bytes dir worker_id key bytes plane = elim (with_new_pool dir worker_id plane) [
    | none ↦ none
    | some plane' ↦
        let r : CacheResidency = record {
          key = key;
          worker_id = worker_id;
          tier = cpu_dram;
          bytes = length bytes;
          last_access_ms = 0;
          ref_count = 0;
          pinned = false;
        } in
        some (place crc32 write logged r (with_pool worker_id (put_dram key bytes) plane')).1
  ]

module _ (logged : KvBlockKey → Bool) (worker_id : String) where
  abbrev pub removal : TierEntry → DataPlaneAction
  removal e = record {
    kind = remove_kind;
    worker_id = worker_id;
    key = e.residency.key;
    from_tier = some e.residency.tier;
    to_tier = none;
    bytes = e.residency.bytes;
    estimated_us = 0;
  }

  -- One key of the loop in `remove_block`.
  unfoldable pub remove_one :
      KvBlockKey
      → DataPlaneUpdate × WorkerCache × StoreDataPlane
      → DataPlaneUpdate × WorkerCache × StoreDataPlane
  unfolding find delete with_pool drop_block
  remove_one key (update, worker, plane) =
      let plane' = with_pool worker_id (λ pool. (drop_block (logged key) key pool).1) plane in
      elim (find key worker.entries) [
        | none ↦ (update, worker, plane')
        | some e ↦ (
          record update {
            actions = update.actions ++ removal e ∷ [];
            removed = update.removed ++ e.residency ∷ [];
          },
          record worker { entries = delete key worker.entries },
          plane',
        )
      ]

  unfoldable pub remove_each :
      List KvBlockKey
      → DataPlaneUpdate × WorkerCache × StoreDataPlane
      → DataPlaneUpdate × WorkerCache × StoreDataPlane
  unfolding remove_one
  remove_each [] state = state
  remove_each (k ∷ ks) state = remove_each ks (remove_one k state)

  unfoldable pub remove_block :
      IdentityScope → String → StoreDataPlane → DataPlaneUpdate × StoreDataPlane
  unfolding lookup insert scope_matches remove_each
  remove_block scope hash plane = elim (lookup worker_id plane.workers) [
    | none ↦ (record { actions = []; resident = []; removed = [] }, plane)
    | some worker ↦
        let keys =
          map (λ e. e.0)
            (keep (λ e. str_eq e.0.block_hash hash && scope_matches scope e.0) worker.entries) in
        let (update, worker', plane') =
          remove_each keys (record { actions = []; resident = []; removed = [] }, worker, plane) in
        (update, record plane' { workers = insert worker_id worker' plane'.workers })
  ]

unfoldable pub clear_worker : String → StoreDataPlane → DataPlaneUpdate × StoreDataPlane
unfolding lookup remove
clear_worker worker_id plane =
    let plane' = record plane { byte_pools = remove worker_id plane.byte_pools } in
    elim (lookup worker_id plane.workers) [
      | none ↦ (record { actions = []; resident = []; removed = [] }, plane')
      | some worker ↦ (
        record {
          actions =
              map
                (λ e. record (removal (λ k. true) worker_id e.1) {
                  worker_id = e.1.residency.worker_id;
                })
                worker.entries;
          resident = [];
          removed = map (λ e. e.1.residency) worker.entries;
        },
        record plane' { workers = remove worker_id plane.workers },
      )
    ]
