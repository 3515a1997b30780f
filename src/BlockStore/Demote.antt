-- ===== src/BlockStore/Demote.antt =====
-- A block moves to a file in crates/quillcache-store/src/lib.rs: LocalKvStore::demote_to_ssd.
use quillcache.Prelude.{
  ℕ, ◌+◌, ◌-◌, ◌≤◌, ◌≡◌, refl, sym, ap, ◌∙◌, subst, ◌⊎◌, inl, inr, Bool, true, some, [], ◌∷◌, ◌++◌,
  arith, if◌then◌else◌, ==_iff, Bool-cases, Option-cases, length,
}
use quillcache.Identity.{KvBlockKey}
use quillcache.KeyMap.{nat_key, find, put, delete}
use quillcache.KeyMap.Laws.{find-put, find-delete, find-put_self, put-Unique, total-put}
use quillcache.BlockStore.{
  local_ssd, block_key_eq, block_key_eq_iff, block_key, Bytes, BlockMeta, commit, LocalKvStore,
  DiskWrite, written,
}
use quillcache.BlockStore.Ops.{IoResult, done, retier, demote_to_ssd}
use quillcache.BlockStore.Serve.{intact, apply_record}
use quillcache.BlockStore.Valid.{
  dram_size, ssd_size, Home, InMemory, committed, live, IsValid, Home-files, committed-put,
}
use quillcache.BlockStore.Remove.{replay_wal-append}
use quillcache.BlockStore.Held.{Home-held}

module _ (crc32 : Bytes → ℕ) (k : KvBlockKey) (s : LocalKvStore) (v : IsValid crc32 s) where
  -- The numbers of the files in use are not above the last one given out.
  ssd-le : (j : KvBlockKey) (i : ℕ) → find j s.ssd ≡ some i → i ≤ s.next_file
  ssd-le j i q = elim (Option-cases (find j (live s))) [
    | inl o ↦ ground (arith, v.durable j)
    | inr (c, o) ↦ elim (Bool-cases (intact crc32 s.disk.files c)) [
      | inl y ↦
          let own : committed crc32 s.disk.files (some c) ≡ some i =
            ap (committed crc32 s.disk.files) (sym o) ∙ v.durable j ∙ q in
          ground (arith, v.fresh j c o)
      | inr n ↦
          let own : committed crc32 s.disk.files (some c) ≡ some i =
            ap (committed crc32 s.disk.files) (sym o) ∙ v.durable j ∙ q in
          ground arith
    ]
  ]

  abbrev pub moved : BlockMeta → Bytes → LocalKvStore
  moved m bytes = record s {
    dram = delete k s.dram;
    dram_bytes = s.dram_bytes - length bytes;
    ssd = put k (s.next_file + 1) s.ssd;
    ssd_bytes = s.ssd_bytes + length bytes;
    meta = put k (record m { tier = local_ssd }) s.meta;
    next_file = s.next_file + 1;
    demotions = s.demotions + 1;
    disk = record (s.disk) {
      files = put (s.next_file + 1) bytes s.disk.files;
      wal = s.disk.wal ++ commit k (s.next_file + 1) (length bytes) (crc32 bytes) ∷ [];
    };
  }

  module _ (m : BlockMeta) (bytes : Bytes) (inside : InMemory m bytes)
      (e : find k s.meta ≡ some m) where
    moved-homes :
        (j : KvBlockKey)
        → Home
            (put (s.next_file + 1) bytes s.disk.files)
            (find j (put k (record m { tier = local_ssd }) s.meta))
            (find j (delete k s.dram))
            (find j (put k (s.next_file + 1) s.ssd))
    moved-homes j = elim (Bool-cases (block_key_eq k j)) [
      | inl y ↦
          rw
            (
              find-put k j (record m { tier = local_ssd }) s.meta,
              find-delete k j s.dram,
              find-put k j (s.next_file + 1) s.ssd,
              y,
            )
            (refl, bytes, find-put_self (s.next_file + 1) bytes s.disk.files, inside.1)
      | inr x ↦
          rw
            (
              find-put k j (record m { tier = local_ssd }) s.meta,
              find-delete k j s.dram,
              find-put k j (s.next_file + 1) s.ssd,
              x,
            )
            (Home-files s.disk.files (put (s.next_file + 1) bytes s.disk.files) (find j s.meta)
              (find j s.dram) (find j s.ssd)
              (λ i q. ground (arith, find-put (s.next_file + 1) i bytes s.disk.files, ssd-le j i q))
              (v.homes j))
    ]

    moved-live :
        (j : KvBlockKey)
        → find j (live (moved m bytes)) ≡ (
            if block_key_eq k j
            then some (s.next_file + 1, length bytes, crc32 bytes)
            else find j (live s))
    moved-live j =
        ap (find j) (
          replay_wal-append s.disk.wal (commit k (s.next_file + 1) (length bytes) (crc32 bytes)) [])
        ∙ (unfold apply_record in
            find-put k j (s.next_file + 1, length bytes, crc32 bytes) (live s))

    own_intact :
        intact crc32
          (put (s.next_file + 1) bytes s.disk.files)
          (s.next_file + 1, length bytes, crc32 bytes)
        ≡ true
    unfolding intact
    own_intact =
        rw (find-put_self (s.next_file + 1) bytes s.disk.files, intact)
          (rw ((==_iff (length bytes) (length bytes)).1 refl)
            ((==_iff (crc32 bytes) (crc32 bytes)).1 refl))

    entry :
        (j : KvBlockKey) (i : ℕ)
        → find j (put k (s.next_file + 1) s.ssd) ≡ some i
        → ((k ≡ j) × (i ≡ s.next_file + 1)) ⊎ ((find j s.ssd ≡ some i) × (i ≤ s.next_file))
    entry j i q = elim (Bool-cases (block_key_eq k j)) [
      | inl y ↦
          inl ((block_key_eq_iff k j).0 y, ground (arith, find-put k j (s.next_file + 1) s.ssd))
      | inr x ↦
          let old : find j s.ssd ≡ some i = ground (arith, find-put k j (s.next_file + 1) s.ssd) in
          inr (old, ssd-le j i old)
    ]

    moved-durable :
        (j : KvBlockKey)
        → committed crc32 (put (s.next_file + 1) bytes s.disk.files) (find j (live (moved m bytes)))
          ≡ find j (put k (s.next_file + 1) s.ssd)
    moved-durable j =
        ap (committed crc32 (put (s.next_file + 1) bytes s.disk.files)) (moved-live j)
        ∙ elim (Bool-cases (block_key_eq k j)) [
          | inl y ↦ rw (find-put k j (s.next_file + 1) s.ssd, y) (rw own_intact refl)
          | inr x ↦
              rw (find-put k j (s.next_file + 1) s.ssd, x)
                (committed-put crc32 s.disk.files (s.next_file + 1) bytes (find j (live s))
                    (λ c q. omega (arith, v.fresh j c q))
                  ∙ v.durable j)
        ]

    moved-IsValid : IsValid crc32 (moved m bytes)
    moved-IsValid =
        let dram_total = total-put dram_size k (record m { tier = local_ssd }) s.meta in
        let ssd_total = total-put ssd_size k (record m { tier = local_ssd }) s.meta in
        record {
          homes = moved-homes;
          durable = moved-durable;
          fresh = λ j c q. ground (arith, moved-live j, v.fresh j c);
          single = λ j l i q r. elim (entry j i q) [
            | inl (kj, new) ↦ elim (entry l i r) [
              | inl (kl, new') ↦ sym kj ∙ kl
              | inr (old, le) ↦ absurd (omega arith)
            ]
            | inr (old, le) ↦ elim (entry l i r) [
              | inl (kl, new') ↦ absurd (omega arith)
              | inr (old', le') ↦ v.single j l i old old'
            ]
          ];
          unique = put-Unique k (record m { tier = local_ssd }) s.meta v.unique;
          deletable = v.deletable;
          dram_sum = ground (arith, v.dram_sum, dram_total, e, inside.0, inside.1);
          ssd_sum = ground (arith, v.ssd_sum, ssd_total, e, inside.0, inside.1);
        }

  module _ (write : ℕ → DiskWrite) where
    demote-moved :
        (m : BlockMeta) (bytes : Bytes)
        → find k s.dram ≡ some bytes
        → find k s.meta ≡ some m
        → write (s.next_file + 1) ≡ written
        → demote_to_ssd crc32 write k s ≡ (done true, moved m bytes)
    unfolding demote_to_ssd
    demote-moved m bytes d e w = rw (d, demote_to_ssd) (rw w (rw (e, retier) refl))

    -- Where the writes of the disk succeed.
    pub demote_to_ssd-IsValid :
        write (s.next_file + 1) ≡ written → IsValid crc32 (demote_to_ssd crc32 write k s).1
    demote_to_ssd-IsValid w = elim (Option-cases (find k s.dram)) [
      | inl d ↦ unfold demote_to_ssd in rw (d, demote_to_ssd) v
      | inr (bytes, d) ↦
          let (m, e, p, inside) =
            Home-held s.disk.files (find k s.meta) bytes (find k s.ssd)
              (subst (λ o. Home s.disk.files (find k s.meta) o (find k s.ssd)) d (v.homes k)) in
          subst (λ (r : IoResult Bool × LocalKvStore). IsValid crc32 r.1)
            (sym (demote-moved m bytes d e w)) (moved-IsValid m bytes inside e)
    ]

    -- What a demotion is when the block is in memory.
    pub demote_to_ssd-result :
        (bytes : Bytes)
        → find k s.dram ≡ some bytes
        → write (s.next_file + 1) ≡ written
        → (m : BlockMeta) × (find k s.meta ≡ some m)
          × InMemory m bytes
          × (demote_to_ssd crc32 write k s ≡ (done true, moved m bytes))
    demote_to_ssd-result bytes d w =
        let (m, e, p, inside) =
          Home-held s.disk.files (find k s.meta) bytes (find k s.ssd)
            (subst (λ o. Home s.disk.files (find k s.meta) o (find k s.ssd)) d (v.homes k)) in
        (m, e, inside, demote-moved m bytes d e w)
