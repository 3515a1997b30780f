-- ===== src/DataPlane/Metrics.antt =====
-- The reports of crates/quillcache-store/src/lib.rs: StoreDataPlane::snapshot and metrics.
use quillcache.Prelude.{
  ℕ, ◌+◌, ◌%◌, ◌≤◌, ◌<◌, List, [], ◌∷◌, ◌++◌, map, arith, length, keep, u64_mod,
}
use quillcache.BlockStore.{CacheTier, hbm, cpu_dram, local_ssd}
use quillcache.MemoryIndex.{CacheResidency, tier_eq}
use quillcache.StrMap.{StrMap}
use quillcache.DataPlane.{WorkerCache, StoreDataPlane}

pub record DataPlaneMetrics : Type 0 where
  pub resident_blocks : ℕ
  pub resident_bytes : ℕ
  pub hbm_bytes : ℕ
  pub cpu_dram_bytes : ℕ
  pub local_ssd_bytes : ℕ
  pub admits : ℕ
  pub hits : ℕ
  pub promotions : ℕ
  pub demotions : ℕ
  pub evictions : ℕ

unfoldable pub residencies : StrMap WorkerCache → List CacheResidency
residencies [] = []
residencies ((id, worker) ∷ workers) =
    map (λ e. e.1.residency) worker.entries ++ residencies workers

unfoldable pub snapshot : StoreDataPlane → List CacheResidency
unfolding residencies
snapshot plane = residencies plane.workers

abbrev pub byte_total : List CacheResidency → ℕ
byte_total [] = 0
byte_total (r ∷ rs) = r.bytes + byte_total rs

-- The sum wraps at 64 bits.
unfoldable pub sum_bytes : List CacheResidency → ℕ
sum_bytes rs = byte_total rs % u64_mod

abbrev pub bytes_in : CacheTier → List CacheResidency → ℕ
bytes_in tier rs = sum_bytes (keep (λ r. tier_eq r.tier tier) rs)

unfoldable pub metrics : StoreDataPlane → DataPlaneMetrics
unfolding snapshot sum_bytes
metrics plane =
    let rs = snapshot plane in
    record {
      resident_blocks = length rs;
      resident_bytes = sum_bytes rs;
      hbm_bytes = bytes_in hbm rs;
      cpu_dram_bytes = bytes_in cpu_dram rs;
      local_ssd_bytes = bytes_in local_ssd rs;
      admits = plane.admits;
      hits = plane.hits;
      promotions = plane.promotions;
      demotions = plane.demotions;
      evictions = plane.evictions;
    }

abbrev total_in : CacheTier → List CacheResidency → ℕ
total_in tier rs = byte_total (keep (λ r. tier_eq r.tier tier) rs)

bytes_in-le :
    (rs : List CacheResidency)
    → total_in hbm rs + total_in cpu_dram rs + total_in local_ssd rs ≤ byte_total rs
bytes_in-le [] = omega arith
bytes_in-le (r ∷ rs) = ground (arith, bytes_in-le rs)

-- Below 2 ^ 64 bytes in all, the bytes reported for three tiers are together not more than the bytes
-- reported as resident.
metrics-le :
    (plane : StoreDataPlane)
    → byte_total (snapshot plane) < u64_mod
    → (metrics plane).hbm_bytes + (metrics plane).cpu_dram_bytes + (metrics plane).local_ssd_bytes
      ≤ (metrics plane).resident_bytes
unfolding metrics sum_bytes
metrics-le plane small = omega (arith, bytes_in-le (snapshot plane), small)
