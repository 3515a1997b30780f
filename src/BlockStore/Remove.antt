-- ===== src/BlockStore/Remove.antt =====
-- A block leaves the byte pool of crates/quillcache-store/src/lib.rs, overwritten or dropped.
use quillcache.Prelude.{
  ℕ, ◌+◌, ◌-◌, ◌≡◌, refl, sym, ap, ◌∙◌, subst, ◌⊎◌, inl, inr, Bool, true, false, false≢true, Option,
  none, some, List, [], ◌∷◌, ◌++◌, arith, ◌==◌, if◌then◌else◌, ==_iff, Bool-cases, Option-cases,
}
use quillcache.Identity.{KvBlockKey}
use quillcache.StrMap.{StrMap}
use quillcache.KeyMap.{KeyMap, nat_key, find, delete}
use quillcache.KeyMap.Laws.{find-delete, find-delete_self, delete-Unique, total-delete}
use quillcache.BlockStore.{
  block_key_eq, block_key_eq_iff, block_key, Bytes, BlockMeta, WalRecord, tombstone, LocalKvStore,
}
use quillcache.BlockStore.Ops.{remove_internal, drop_block, untrack}
use quillcache.BlockStore.Serve.{Commit, apply_record, replay_wal}
use quillcache.BlockStore.Valid.{
  dram_size, ssd_size, Home, InMemory, InFile, committed, live, IsValid, Home-cases, Home-files,
  committed-delete,
}

pub replay_wal-append :
    (rs : List WalRecord) (r : WalRecord) (m : KeyMap KvBlockKey Commit)
    → replay_wal (rs ++ r ∷ []) m ≡ apply_record r (replay_wal rs m)
unfolding replay_wal
replay_wal-append [] r m = refl
replay_wal-append (x ∷ rs) r m = replay_wal-append rs r (apply_record x m)

-- What a log may say afterwards: nothing of the other keys changes.
abbrev Agrees : KvBlockKey → LocalKvStore → List WalRecord → Type 0
Agrees k s wal' =
    (j : KvBlockKey)
    → (find j (replay_wal wal' []) ≡ find j (live s))
      ⊎ ((k ≡ j) × (find j (replay_wal wal' []) ≡ none))

module _ (k : KvBlockKey) (m : BlockMeta) (h : StrMap (List KvBlockKey)) (n : ℕ)
    (s : LocalKvStore) where
  -- The store without a block that was in memory, and without one that was in a file.
  abbrev pub without_memory : LocalKvStore
  without_memory = record s {
    dram = delete k s.dram;
    dram_bytes = s.dram_bytes - m.bytes;
    meta = delete k s.meta;
    by_hash = h;
    evictions = n;
  }

  abbrev pub without_file : ℕ → List WalRecord → LocalKvStore
  without_file id wal' = record s {
    ssd = delete k s.ssd;
    ssd_bytes = s.ssd_bytes - m.bytes;
    meta = delete k s.meta;
    by_hash = h;
    evictions = n;
    disk = record (s.disk) { files = delete id s.disk.files; wal = wal' };
  }

  module _ (crc32 : Bytes → ℕ) (v : IsValid crc32 s) (e : find k s.meta ≡ some m) where
    without_memory-homes :
        (j : KvBlockKey)
        → find k s.ssd ≡ none
        → Home s.disk.files (find j (delete k s.meta)) (find j (delete k s.dram)) (find j s.ssd)
    without_memory-homes j p = elim (Bool-cases (block_key_eq k j)) [
      | inl y ↦
          let gone : find j s.ssd ≡ none =
            subst (λ x. find x s.ssd ≡ none) ((block_key_eq_iff k j).0 y) p in
          rw (find-delete k j s.meta, find-delete k j s.dram, y, gone) tt
      | inr x ↦ rw (find-delete k j s.meta, find-delete k j s.dram, x) (v.homes j)
    ]

    without_memory-IsValid :
        (bytes : Bytes) → find k s.ssd ≡ none → InMemory m bytes → IsValid crc32 without_memory
    without_memory-IsValid bytes p inside =
        let dram_total = total-delete dram_size k s.meta v.unique in
        let ssd_total = total-delete ssd_size k s.meta v.unique in
        record {
          homes = λ j. without_memory-homes j p;
          durable = v.durable;
          fresh = v.fresh;
          single = v.single;
          unique = delete-Unique k s.meta v.unique;
          deletable = v.deletable;
          dram_sum = ground (arith, v.dram_sum, dram_total, e, inside.0);
          ssd_sum = ground (arith, v.ssd_sum, ssd_total, e, inside.0);
        }

    -- Two keys have no file in common.
    apart :
        (j : KvBlockKey) (id i : ℕ)
        → block_key_eq k j ≡ false
        → find j s.ssd ≡ some i
        → find k s.ssd ≡ some id
        → (id == i) ≡ false
    apart j id i x q p = elim (Bool-cases (id == i)) [
      | inr n ↦ n
      | inl y ↦
          let same : j ≡ k = v.single j k i q (p ∙ ap some ((==_iff id i).0 y)) in
          absurd (false≢true (sym x ∙ (block_key_eq_iff k j).1 (sym same)))
    ]

    without_file-homes :
        (j : KvBlockKey) (id : ℕ)
        → find k s.dram ≡ none
        → find k s.ssd ≡ some id
        → Home
            (delete id s.disk.files)
            (find j (delete k s.meta))
            (find j s.dram)
            (find j (delete k s.ssd))
    without_file-homes j id d p = elim (Bool-cases (block_key_eq k j)) [
      | inl y ↦
          let gone : find j s.dram ≡ none =
            subst (λ x. find x s.dram ≡ none) ((block_key_eq_iff k j).0 y) d in
          rw (find-delete k j s.meta, find-delete k j s.ssd, y, gone) tt
      | inr x ↦
          rw (find-delete k j s.meta, find-delete k j s.ssd, x)
            (Home-files s.disk.files (delete id s.disk.files) (find j s.meta) (find j s.dram)
              (find j s.ssd)
              (λ i q.
                find-delete id i s.disk.files
                ∙ ap (λ b. if b then none else find i s.disk.files) (apart j id i x q p))
              (v.homes j))
    ]

    without_file-durable :
        (j : KvBlockKey) (id : ℕ)
        → find k s.ssd ≡ some id
        → committed crc32 (delete id s.disk.files) (find j (live s)) ≡ find j (delete k s.ssd)
    without_file-durable j id p =
        committed-delete crc32 s.disk.files id (find j (live s))
        ∙ ap (λ (o : Option ℕ). drop_id o) (v.durable j)
        ∙ dropped
        ∙ sym (find-delete k j s.ssd)
      where
        drop_id : Option ℕ → Option ℕ
        drop_id none = none
        drop_id (some i) = if id == i then none else some i

        dropped : drop_id (find j s.ssd) ≡ (if block_key_eq k j then none else find j s.ssd)
        dropped = elim (Bool-cases (block_key_eq k j)) [
          | inl y ↦
              let own : find j s.ssd ≡ some id =
                subst (λ x. find x s.ssd ≡ some id) ((block_key_eq_iff k j).0 y) p in
              rw (y, own) (rw ((==_iff id id).1 refl) refl)
          | inr x ↦ elim (Option-cases (find j s.ssd)) [
            | inl q ↦ rw (x, q) refl
            | inr (i, q) ↦ rw (x, q) (rw (apart j id i x q p) refl)
          ]
        ]

    without_file-IsValid :
        (id : ℕ) (wal' : List WalRecord)
        → find k s.dram ≡ none
        → find k s.ssd ≡ some id
        → InFile s.disk.files m id
        → Agrees k s wal'
        → IsValid crc32 (without_file id wal')
    without_file-IsValid id wal' d p inside agrees =
        let dram_total = total-delete dram_size k s.meta v.unique in
        let ssd_total = total-delete ssd_size k s.meta v.unique in
        record {
          homes = λ j. without_file-homes j id d p;
          durable = λ j. elim (agrees j) [
            | inl same ↦
                ap (committed crc32 (delete id s.disk.files)) same ∙ without_file-durable j id p
            | inr (own, gone) ↦
                ap (committed crc32 (delete id s.disk.files)) gone
                ∙ sym (subst (λ x. find x (delete k s.ssd) ≡ none) own (find-delete_self k s.ssd))
          ];
          fresh = λ j c q. elim (agrees j) [
            | inl same ↦ v.fresh j c (sym same ∙ q)
            | inr (own, gone) ↦ ground arith
          ];
          single = λ j l i q r.
              v.single j l i (ground (arith, find-delete k j s.ssd))
                (ground (arith, find-delete k l s.ssd));
          unique = delete-Unique k s.meta v.unique;
          deletable = v.deletable;
          dram_sum = ground (arith, v.dram_sum, dram_total, e, inside.0);
          ssd_sum = ground (arith, v.ssd_sum, ssd_total, e, inside.0);
        }

-- Where the block of a key is, if it is resident.
abbrev Placed : LocalKvStore → KvBlockKey → BlockMeta → Type 0
Placed s k m =
    ((bytes : Bytes) × (find k s.dram ≡ some bytes) × (find k s.ssd ≡ none) × InMemory m bytes)
    ⊎ ((id : ℕ) × (find k s.dram ≡ none) × (find k s.ssd ≡ some id) × InFile s.disk.files m id)

pub IsValid-Placed :
    (crc32 : Bytes → ℕ) (s : LocalKvStore) (k : KvBlockKey) (m : BlockMeta)
    → IsValid crc32 s
    → find k s.meta ≡ some m
    → Placed s k m
IsValid-Placed crc32 s k m v e =
    Home-cases s.disk.files m (find k s.dram) (find k s.ssd)
      (subst (λ o. Home s.disk.files o (find k s.dram) (find k s.ssd)) e (v.homes k))

module _ (crc32 : Bytes → ℕ) (k : KvBlockKey) (s : LocalKvStore) (v : IsValid crc32 s) where
  pub remove_internal-IsValid : IsValid crc32 (remove_internal k s)
  unfolding remove_internal
  remove_internal-IsValid = elim (Option-cases (find k s.meta)) [
    | inl e ↦ rw (e, remove_internal) v
    | inr (m, e) ↦ elim (IsValid-Placed crc32 s k m v e) [
      | inl (bytes, d, p, inside) ↦
          let same : remove_internal k s ≡ without_memory k m (untrack k s.by_hash) s.evictions s =
            ground (arith, inside.0) in
          subst (IsValid crc32) (sym same) (
            without_memory-IsValid k m (untrack k s.by_hash) s.evictions s crc32 v e bytes p inside)
      | inr (id, d, p, inside) ↦
          let same : remove_internal k s
              ≡ without_file k m (untrack k s.by_hash) s.evictions s id s.disk.wal =
            ground (arith, inside.0, v.deletable id) in
          subst (IsValid crc32) (sym same) (
            without_file-IsValid k m (untrack k s.by_hash) s.evictions s crc32 v e id s.disk.wal d p
              inside (λ j. inl refl))
    ]
  ]

  logs :
      (logged : Bool) → Agrees k s (if logged then s.disk.wal ++ tombstone k ∷ [] else s.disk.wal)
  logs false j = inl refl
  logs true j =
      let said = replay_wal-append s.disk.wal (tombstone k) [] in
      elim (Bool-cases (block_key_eq k j)) [
        | inl y ↦ inr (
          (block_key_eq_iff k j).0 y,
          rw said (
              unfold apply_record in
              (find-delete k j (live s) ∙ ap (λ b. if b then none else find j (live s)) y)),
        )
        | inr x ↦ inl (
            rw said (
              unfold apply_record in
              (find-delete k j (live s) ∙ ap (λ b. if b then none else find j (live s)) x)))
      ]

  pub drop_block-IsValid : (logged : Bool) → IsValid crc32 (drop_block logged k s).1
  unfolding drop_block
  drop_block-IsValid logged = elim (Option-cases (find k s.meta)) [
    | inl e ↦ rw (e, drop_block) v
    | inr (m, e) ↦ elim (IsValid-Placed crc32 s k m v e) [
      | inl (bytes, d, p, inside) ↦
          let same : (drop_block logged k s).1
              ≡ without_memory k m (untrack k s.by_hash) (s.evictions + 1) s =
            ground (arith, inside.0) in
          subst (IsValid crc32) (sym same) (
            without_memory-IsValid k m (untrack k s.by_hash) (s.evictions + 1) s crc32 v e bytes p
              inside)
      | inr (id, d, p, inside) ↦
          let wal' = if logged then s.disk.wal ++ tombstone k ∷ [] else s.disk.wal in
          let same : (drop_block logged k s).1
              ≡ without_file k m (untrack k s.by_hash) (s.evictions + 1) s id wal' =
            ground (arith, inside.0, v.deletable id) in
          subst (IsValid crc32) (sym same) (
            without_file-IsValid k m (untrack k s.by_hash) (s.evictions + 1) s crc32 v e id wal' d p
              inside (logs logged))
    ]
  ]
