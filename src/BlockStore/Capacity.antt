-- ===== src/BlockStore/Capacity.antt =====
-- The tiering of crates/quillcache-store/src/lib.rs ends within the budgets: LocalKvStore::put and
-- enforce_capacity.
use quillcache.Prelude.{
  ℕ, zero, suc, ◌+◌, ◌≤◌, ◌<◌, ◌≡◌, refl, ap, ◌∙◌, inl, inr, Bool, true, false, none, some, List,
  [], ◌∷◌, ◌++◌, arith, ltb, Bool-cases, Option-cases, length,
}
use quillcache.Identity.{KvBlockKey}
use quillcache.KeyMap.{nat_key, find, delete}
use quillcache.KeyMap.Laws.{total, total-put, total-delete}
use quillcache.BlockStore.{
  local_ssd, block_key, Bytes, BlockMeta, LocalKvStore, DiskWrite, written, is_ssd, is_dram,
}
use quillcache.BlockStore.Ops.{remove_internal, done, put_dram, demote_to_ssd, drop_block, forget}
use quillcache.BlockStore.Policy.{
  coldest_in, demote_loop, drop_loop, enforce_capacity, put_block, landed,
}
use quillcache.BlockStore.Valid.{dram_size, ssd_size, IsValid}
use quillcache.BlockStore.Coldest.{one, total-one-le, coldest_in-some, coldest_in-none}
use quillcache.BlockStore.Remove.{drop_block-IsValid, IsValid-Placed}
use quillcache.BlockStore.Held.{put_dram-IsValid}
use quillcache.BlockStore.Demote.{demote_to_ssd-IsValid, demote_to_ssd-result}

abbrev in_memory : BlockMeta → ℕ
in_memory = one (λ m. is_dram m.tier)

abbrev in_files : BlockMeta → ℕ
in_files = one (λ m. is_ssd m.tier)

abbrev SameBudgets : LocalKvStore → LocalKvStore → Type 0
SameBudgets s s' = (s'.dram_capacity ≡ s.dram_capacity) × (s'.ssd_capacity ≡ s.ssd_capacity)

module _ (crc32 : Bytes → ℕ) where
  module _ (write : ℕ → DiskWrite) (works : (id : ℕ) → write id ≡ written) where
    -- A round of the first loop: the coldest block in memory moves to a file.
    demote_round :
        (s : LocalKvStore) (k : KvBlockKey)
        → IsValid crc32 s
        → coldest_in is_dram s ≡ some k
        → let s' = (demote_to_ssd crc32 write k s).1 in
          ((demote_to_ssd crc32 write k s).0 ≡ done true)
          × IsValid crc32 s'
          × SameBudgets s s'
          × (total in_memory s'.meta + 1 ≡ total in_memory s.meta)
    demote_round s k v e =
        let (m, f, y) = coldest_in-some is_dram s k v.unique e in
        elim (IsValid-Placed crc32 s k m v f) [
          | inr (id, d, p, inside) ↦ absurd (ground (arith, inside.0))
          | inl (bytes, d, p, inside) ↦
              let (m', f', inside', r) =
                demote_to_ssd-result crc32 k s v write bytes d (works (s.next_file + 1)) in
              let sum = total-put in_memory k (record m' { tier = local_ssd }) s.meta in
              (
                ap (λ x. x.0) r,
                demote_to_ssd-IsValid crc32 k s v write (works (s.next_file + 1)),
                (ap (λ x. x.1.dram_capacity) r, ap (λ x. x.1.ssd_capacity) r),
                ap (λ x. total in_memory x.1.meta + 1) r ∙ ground (arith, sum, f', inside'.0),
              )
        ]

    memory_empty :
        (s : LocalKvStore) → IsValid crc32 s → coldest_in is_dram s ≡ none → s.dram_bytes ≡ 0
    memory_empty s v e = v.dram_sum ∙ coldest_in-none is_dram dram_size s v.unique nothing e
      where
        nothing :
            (k : KvBlockKey) (m : BlockMeta)
            → find k s.meta ≡ some m
            → is_dram m.tier ≡ false
            → dram_size m ≡ 0
        nothing k m f n = elim (IsValid-Placed crc32 s k m v f) [
          | inl (bytes, d, p, inside) ↦ absurd (ground (arith, inside.0))
          | inr (id, d, p, inside) ↦ ground (arith, inside.0)
        ]

    demote_loop-fits :
        (fuel : ℕ) (s : LocalKvStore)
        → IsValid crc32 s
        → total in_memory s.meta < fuel
        → let s' = (demote_loop crc32 write fuel s).1 in
          ((demote_loop crc32 write fuel s).0 ≡ done tt)
          × IsValid crc32 s'
          × SameBudgets s s'
          × (s'.dram_bytes ≤ s'.dram_capacity)
    unfolding demote_loop
    demote_loop-fits zero s v lt = absurd (omega arith)
    demote_loop-fits (suc fuel) s v lt = elim (Bool-cases (ltb s.dram_capacity s.dram_bytes)) [
      | inr n ↦ rw (n, demote_loop) (refl, v, (refl, refl), ground arith)
      | inl y ↦ elim (Option-cases (coldest_in is_dram s)) [
        | inl e ↦
            rw (y, demote_loop) (rw e (refl, v, (refl, refl), ground (arith, memory_empty s v e)))
        | inr (k, e) ↦
            let s1 = (demote_to_ssd crc32 write k s).1 in
            let (r, v1, (c, d), sum) = demote_round s k v e in
            let (t, v2, (c', d'), le) = demote_loop-fits fuel s1 v1 (omega (arith, sum)) in
            rw (y, demote_loop) (rw e (rw r (t, v2, (c' ∙ c, d' ∙ d), le)))
      ]
    ]

  -- A round of the second loop: the coldest block in a file leaves the pool.
  drop_round :
      (logged : Bool) (s : LocalKvStore) (k : KvBlockKey)
      → IsValid crc32 s
      → coldest_in is_ssd s ≡ some k
      → let s' = (drop_block logged k s).1 in
        ((drop_block logged k s).0 ≡ true)
        × IsValid crc32 s'
        × SameBudgets s s'
        × (s'.dram_bytes ≡ s.dram_bytes)
        × (total in_files s'.meta + 1 ≡ total in_files s.meta)
  unfolding drop_block
  drop_round logged s k v e =
      let (m, f, y) = coldest_in-some is_ssd s k v.unique e in
      let sum = total-delete in_files k s.meta v.unique in
      let valid = drop_block-IsValid crc32 k s v logged in
      let taken : (drop_block logged k s).0 ≡ true = rw (f, drop_block) refl in
      let kept : (drop_block logged k s).1.dram_bytes ≡ s.dram_bytes =
        unfold forget in ground (arith, f, y) in
      let entries : (drop_block logged k s).1.meta ≡ delete k s.meta = rw (f, drop_block) refl in
      let dram_budget : (drop_block logged k s).1.dram_capacity ≡ s.dram_capacity =
        unfold forget in ground (arith, f, y) in
      let ssd_budget : (drop_block logged k s).1.ssd_capacity ≡ s.ssd_capacity =
        unfold forget in ground (arith, f, y) in
      (
        taken,
        valid,
        (dram_budget, ssd_budget),
        kept,
        ap (λ l. total in_files l + 1) entries ∙ ground (arith, sum, f, y),
      )

  files_empty : (s : LocalKvStore) → IsValid crc32 s → coldest_in is_ssd s ≡ none → s.ssd_bytes ≡ 0
  files_empty s v e =
      v.ssd_sum ∙ coldest_in-none is_ssd ssd_size s v.unique (λ k m f n. ground arith) e

  drop_loop-fits :
      (logged : KvBlockKey → Bool) (fuel : ℕ) (evicted : List KvBlockKey) (s : LocalKvStore)
      → IsValid crc32 s
      → total in_files s.meta < fuel
      → let s' = (drop_loop logged fuel evicted s).1 in
        IsValid crc32 s'
        × SameBudgets s s'
        × (s'.dram_bytes ≡ s.dram_bytes)
        × (s'.ssd_bytes ≤ s'.ssd_capacity)
  unfolding drop_loop
  drop_loop-fits logged zero evicted s v lt = absurd (omega arith)
  drop_loop-fits logged (suc fuel) evicted s v lt =
      elim (Bool-cases (ltb s.ssd_capacity s.ssd_bytes)) [
        | inr n ↦ rw (n, drop_loop) (v, (refl, refl), refl, ground arith)
        | inl y ↦ elim (Option-cases (coldest_in is_ssd s)) [
          | inl e ↦
              rw (y, drop_loop) (rw e (v, (refl, refl), refl, ground (arith, files_empty s v e)))
          | inr (k, e) ↦
              let s1 = (drop_block (logged k) k s).1 in
              let (r, v1, (c, d), same, sum) = drop_round (logged k) s k v e in
              let (v2, (c', d'), same', le) =
                drop_loop-fits logged fuel (evicted ++ k ∷ []) s1 v1 (omega (arith, sum)) in
              rw (y, drop_loop) (rw e (rw r (v2, (c' ∙ c, d' ∙ d), same' ∙ same, le)))
        ]
      ]

put_dram-budgets :
    (k : KvBlockKey) (bytes : Bytes) (s : LocalKvStore) → SameBudgets s (put_dram k bytes s)
unfolding put_dram remove_internal forget
put_dram-budgets k bytes s = elim (Option-cases (find k s.meta)) [
  | inl e ↦ rw (e, put_dram, remove_internal) (refl, refl)
  | inr (m, e) ↦ elim (Bool-cases (is_ssd m.tier)) [
    | inl y ↦ (ground (arith, e, y), ground (arith, e, y))
    | inr n ↦ (ground (arith, e, n), ground (arith, e, n))
  ]
]

module _ (crc32 : Bytes → ℕ) (write : ℕ → DiskWrite) (logged : KvBlockKey → Bool)
    (works : (id : ℕ) → write id ≡ written) where
  enforce_capacity-fits :
      (s : LocalKvStore)
      → IsValid crc32 s
      → let s' = (enforce_capacity crc32 write logged s).1 in
        ((evicted : List KvBlockKey) × ((enforce_capacity crc32 write logged s).0 ≡ done evicted))
        × IsValid crc32 s'
        × SameBudgets s s'
        × (s'.dram_bytes ≤ s'.dram_capacity)
        × (s'.ssd_bytes ≤ s'.ssd_capacity)
  unfolding enforce_capacity
  enforce_capacity-fits s v =
      let few = total-one-le (λ m. is_dram m.tier) s.meta in
      let s1 = (demote_loop crc32 write (length s.meta + 1) s).1 in
      let (r, v1, (c, d), le) =
        demote_loop-fits crc32 write works (length s.meta + 1) s v (omega (arith, few)) in
      let few' = total-one-le (λ m. is_ssd m.tier) s1.meta in
      let (v2, (c', d'), same, le') =
        drop_loop-fits crc32 logged (length s1.meta + 1) [] s1 v1 (omega (arith, few')) in
      rw (r, enforce_capacity)
        (
          ((drop_loop logged (length s1.meta + 1) [] s1).0, refl),
          v2,
          (c' ∙ c, d' ∙ d),
          omega (arith, same, le, c'),
          le',
        )

  -- On a valid pool, while every write to the disk and every deletion of a file succeed, a put ends with an outcome and not with
  -- an error, and leaves a valid pool in which the bytes in memory and the bytes in files are both
  -- within the budgets of the pool: the blocks are enough rounds for either loop.
  pub put_block-fits :
      (key : KvBlockKey) (bytes : Bytes) (s : LocalKvStore)
      → IsValid crc32 s
      → let s' = (put_block crc32 write logged key bytes s).1 in
        ((evicted : List KvBlockKey) × ((put_block crc32 write logged key bytes s).0
            ≡ done (landed key s', evicted)))
        × IsValid crc32 s'
        × (s'.dram_bytes ≤ s.dram_capacity)
        × (s'.ssd_bytes ≤ s.ssd_capacity)
  unfolding put_block
  put_block-fits key bytes s v =
      let s1 = put_dram key bytes s in
      let (c, d) = put_dram-budgets key bytes s in
      let ((evicted, r), v2, (c', d'), le, le') =
        enforce_capacity-fits s1 (put_dram-IsValid crc32 key bytes s v) in
      rw (r, put_block) ((evicted, refl), v2, omega (arith, le, c, c'), omega (arith, le', d, d'))
