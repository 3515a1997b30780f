-- ===== src/BlockStore/Policy.antt =====
-- The tiering of crates/quillcache-store/src/lib.rs: LocalKvStore::enforce_capacity and put.
use quillcache.Prelude.{
  ℕ, zero, suc, ◌+◌, Bool, true, false, Option, none, some, List, [], ◌∷◌, ◌++◌, ltb, if◌then◌else◌,
  length,
}
use quillcache.Identity.{KvBlockKey}
use quillcache.KeyMap.{KeyMap, nat_key, find}
use quillcache.BlockStore.{
  CacheTier, cpu_dram, block_key, Bytes, LocalKvStore, DiskWrite, is_ssd, is_dram,
}
use quillcache.BlockStore.Ops.{IoResult, done, failed, put_dram, demote_to_ssd, drop_block}

-- The first of the least recently used entries that pass the test: `min_by_key` of a filter.
unfoldable pub coldest :
    {V : Type 0} → (V → Bool) → (V → ℕ) → KeyMap KvBlockKey V → Option (KvBlockKey × ℕ)
coldest is access [] = none
coldest is access ((k, m) ∷ rest) =
    let best = coldest is access rest in
    if is m
    then elim best [
      | none ↦ some (k, access m)
      | some (k', a) ↦ if ltb a (access m) then some (k', a) else some (k, access m)
    ]
    else best

unfoldable pub coldest_in : (CacheTier → Bool) → LocalKvStore → Option KvBlockKey
unfolding coldest
coldest_in tier s = elim (coldest (λ m. tier m.tier) (λ m. m.last_access) s.meta) [
  | none ↦ none
  | some (k, a) ↦ some k
]

module _ (crc32 : Bytes → ℕ) (write : ℕ → DiskWrite) where
  -- The first loop of `enforce_capacity`; each round takes one block out of memory.
  unfoldable pub demote_loop : ℕ → LocalKvStore → IoResult (Unit {0}) × LocalKvStore
  unfolding coldest_in demote_to_ssd
  demote_loop zero s = (done tt, s)
  demote_loop (suc fuel) s = elim (ltb s.dram_capacity s.dram_bytes) [
    | false ↦ (done tt, s)
    | true ↦ elim (coldest_in is_dram s) [
      | none ↦ (done tt, s)
      | some victim ↦
          let (r, s') = demote_to_ssd crc32 write victim s in
          elim r [
            | failed ↦ (failed, s')
            | done moved ↦ elim moved [ true ↦ demote_loop fuel s' | false ↦ (done tt, s') ]
          ]
    ]
  ]

-- The second loop, with the keys that it has evicted.
unfoldable pub drop_loop :
    (KvBlockKey → Bool) → ℕ → List KvBlockKey → LocalKvStore → List KvBlockKey × LocalKvStore
unfolding coldest_in drop_block
drop_loop logged zero evicted s = (evicted, s)
drop_loop logged (suc fuel) evicted s = elim (ltb s.ssd_capacity s.ssd_bytes) [
  | false ↦ (evicted, s)
  | true ↦ elim (coldest_in is_ssd s) [
    | none ↦ (evicted, s)
    | some victim ↦
        let (dropped, s') = drop_block (logged victim) victim s in
        elim dropped [
          | true ↦ drop_loop logged fuel (evicted ++ victim ∷ []) s'
          | false ↦ (evicted, s')
        ]
  ]
]

abbrev pub landed : KvBlockKey → LocalKvStore → CacheTier
landed key s = elim (find key s.meta) [ none ↦ cpu_dram | some m ↦ m.tier ]

module _ (crc32 : Bytes → ℕ) (write : ℕ → DiskWrite) (logged : KvBlockKey → Bool) where
  -- The blocks are as many as the rounds of either loop can be.
  unfoldable pub enforce_capacity : LocalKvStore → IoResult (List KvBlockKey) × LocalKvStore
  unfolding demote_loop drop_loop
  enforce_capacity s =
      let (r, s') = demote_loop crc32 write (length s.meta + 1) s in
      elim r [
        | failed ↦ (failed, s')
        | done u ↦
            let (evicted, s2) = drop_loop logged (length s'.meta + 1) [] s' in (done evicted, s2)
      ]

  -- `PutOutcome` is the tier and what was evicted.
  unfoldable pub put_block :
      KvBlockKey → Bytes → LocalKvStore → IoResult (CacheTier × List KvBlockKey) × LocalKvStore
  unfolding put_dram enforce_capacity find
  put_block key bytes s =
      let (r, s') = enforce_capacity (put_dram key bytes s) in
      elim r [ failed ↦ (failed, s') | done evicted ↦ (done (landed key s', evicted), s') ]
