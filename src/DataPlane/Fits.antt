-- ===== src/DataPlane/Fits.antt =====
-- A placement in crates/quillcache-store/src/lib.rs ends within the capacities of the worker's tiers:
-- StoreDataPlane::place and enforce_capacity.
use quillcache.Prelude.{
  ℕ, ◌+◌, ◌≤◌, ◌<◌, String, ◌≡◌, refl, sym, ap, subst, inl, inr, Bool, Option, none, some, [],
  arith, ltb, Bool-cases, length, u64_mod,
}
use quillcache.Identity.{KvBlockKey}
use quillcache.StrMap.{remove}
use quillcache.StrMap.Laws.{lookup-insert_self}
use quillcache.KeyMap.{find, delete}
use quillcache.KeyMap.Laws.{total, total-put, total-delete, Unique, put-Unique, delete-Unique}
use quillcache.BlockStore.{CacheTier, hbm, cpu_dram, local_ssd, Bytes, block_key, DiskWrite}
use quillcache.BlockStore.Coldest.{total-one-le}
use quillcache.MemoryIndex.{CacheResidency, tier_eq}
use quillcache.DataPlane.{
  TierEntry, StoreTierConfig, StoreDataPlane, capacity, lower_tier, tier_rank,
}
use quillcache.DataPlane.Ops.{in_tier, size_in, Sweep, sweep_tier, enforce_capacity}
use quillcache.DataPlane.Place.{cache_of, counted, admitted, place}
use quillcache.DataPlane.Rounds.{Entries, measure, every, tier_loop-fits, tier_loop-apart}

-- Every tier that a worker has is within its capacity.
abbrev pub Fits : StoreTierConfig → Entries → Type 0
Fits config entries =
    (total (size_in hbm) entries ≤ config.hbm_capacity_bytes)
    × (total (size_in cpu_dram) entries ≤ config.cpu_dram_capacity_bytes)
    × (total (size_in local_ssd) entries ≤ config.local_ssd_capacity_bytes)

-- The bytes of all the entries of a worker.
abbrev pub all_bytes : Entries → ℕ
all_bytes entries = total (measure every) entries

counted-config :
    (worker_id : String) (r : CacheResidency) (o : Option TierEntry) (plane : StoreDataPlane)
    → (counted worker_id r o plane).1.config ≡ plane.config
unfolding counted
counted-config worker_id r none plane = refl
counted-config worker_id r (some e) plane = elim (Bool-cases (tier_eq e.residency.tier r.tier)) [
  | inl y ↦ rw y refl
  | inr n ↦ elim (Bool-cases (ltb (tier_rank r.tier) (tier_rank e.residency.tier))) [
    | inl y ↦ rw n (rw y refl)
    | inr m ↦ rw n (rw m refl)
  ]
]

admitted-config :
    (r : CacheResidency) (plane : StoreDataPlane) → (admitted r plane).plane.config ≡ plane.config
unfolding admitted
admitted-config r plane =
    let worker = cache_of r.worker_id plane in
    counted-config r.worker_id (record r { last_access_ms = worker.clock + 1 })
      (find r.key worker.entries) (record plane { workers = remove r.worker_id plane.workers })

module _ (crc32 : Bytes → ℕ) (write : String → ℕ → DiskWrite) (logged : KvBlockKey → Bool) where
  module _ (worker_id : String) where
    -- One tier after its loop.
    sweep_tier-fits :
        (tier : CacheTier) (w : Sweep)
        → Unique w.worker.entries
        → all_bytes w.worker.entries < u64_mod
        → let w' = sweep_tier crc32 write logged worker_id tier w in
          Unique w'.worker.entries
          × (w'.plane.config ≡ w.plane.config)
          × (total (size_in tier) w'.worker.entries ≤ capacity w.plane.config tier)
          × (all_bytes w'.worker.entries ≤ all_bytes w.worker.entries)
    sweep_tier-fits tier w u small =
        let few = total-one-le (in_tier tier) w.worker.entries in
        tier_loop-fits crc32 write logged worker_id tier (length w.worker.entries + 1) w u
          (omega (arith, few)) small

    enforce_capacity-Fits :
        (w : Sweep)
        → Unique w.worker.entries
        → all_bytes w.worker.entries < u64_mod
        → let w' = enforce_capacity crc32 write logged worker_id w in
          Unique w'.worker.entries × Fits w.plane.config w'.worker.entries
    unfolding enforce_capacity capacity lower_tier
    enforce_capacity-Fits w u small =
        let w1 = sweep_tier crc32 write logged worker_id hbm w in
        let (u1, c1, hbm_fits, less1) = sweep_tier-fits hbm w u small in
        let w2 = sweep_tier crc32 write logged worker_id cpu_dram w1 in
        let (u2, c2, dram_fits, less2) =
          sweep_tier-fits cpu_dram w1 u1 (omega (arith, less1, small)) in
        let (u3, c3, ssd_fits, less3) =
          sweep_tier-fits local_ssd w2 u2 (omega (arith, less1, less2, small)) in
        let hbm_1 =
          tier_loop-apart crc32 write logged worker_id cpu_dram hbm (length w1.worker.entries + 1)
            w1 u1 refl (λ b. refl) in
        let hbm_2 =
          tier_loop-apart crc32 write logged worker_id local_ssd hbm (length w2.worker.entries + 1)
            w2 u2 refl (λ b. refl) in
        let dram_2 =
          tier_loop-apart crc32 write logged worker_id local_ssd cpu_dram
            (length w2.worker.entries + 1) w2 u2 refl (λ b. refl) in
        (
          u3,
          (
            omega (arith, hbm_fits, hbm_1, hbm_2),
            omega (arith, dram_fits, dram_2, ap (λ c. c.cpu_dram_capacity_bytes) c1),
            omega (
              arith,
              ssd_fits,
              ap (λ c. c.local_ssd_capacity_bytes) c1,
              ap (λ c. c.local_ssd_capacity_bytes) c2,
            ),
          ),
        )

  pub place-cache :
      (r : CacheResidency) (plane : StoreDataPlane)
      → cache_of r.worker_id (place crc32 write logged r plane).1
        ≡ (enforce_capacity crc32 write logged r.worker_id (admitted r plane)).worker
  unfolding place
  place-cache r plane =
      let w = enforce_capacity crc32 write logged r.worker_id (admitted r plane) in
      ap (λ o. elim o [ none ↦ record { entries = []; clock = 0 } | some worker ↦ worker ])
        (lookup-insert_self r.worker_id w.worker w.plane.workers)

  -- Where the cache of the worker has one entry under each key and the sizes of its entries, with
  -- that of the placed one, add up to less than 2 ^ 64: after a placement, whatever tier it names and
  -- whatever the byte pools answer, the cache still has one entry under each key, and its bytes in
  -- HBM, in memory and on SSD are each within the capacity of that tier.
  pub place-Fits :
      (r : CacheResidency) (plane : StoreDataPlane)
      → Unique (cache_of r.worker_id plane).entries
      → all_bytes (cache_of r.worker_id plane).entries + r.bytes < u64_mod
      → let cache = cache_of r.worker_id (place crc32 write logged r plane).1 in
        Unique cache.entries × Fits plane.config cache.entries
  unfolding admitted
  place-Fits r plane u small =
      let entries = (cache_of r.worker_id plane).entries in
      let one_more =
        total-put (measure every) r.key
          (record {
            residency = record r { last_access_ms = (cache_of r.worker_id plane).clock + 1 };
            last_access = (cache_of r.worker_id plane).clock + 1;
          })
          (delete r.key entries) in
      let one_less = total-delete (measure every) r.key entries u in
      let start = admitted r plane in
      let w = enforce_capacity crc32 write logged r.worker_id start in
      let (v, fits) =
        enforce_capacity-Fits r.worker_id start
          (put-Unique r.key _ _ (delete-Unique r.key (cache_of r.worker_id plane).entries u))
          (omega (arith, small, one_more, one_less)) in
      subst (λ c. Unique c.entries × Fits plane.config c.entries) (sym (place-cache r plane))
        (v, subst (λ c. Fits c w.worker.entries) (admitted-config r plane) fits)
