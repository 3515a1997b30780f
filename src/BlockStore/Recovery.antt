-- ===== src/BlockStore/Recovery.antt =====
-- Recovery of the byte pool of crates/quillcache-store/src/lib.rs: what LocalKvStore::recover brings
-- back from the disk.
use quillcache.Prelude.{
  ℕ, ◌≡◌, refl, inl, inr, Option, none, some, List, [], ◌∷◌, arith, if◌then◌else◌, Bool-cases,
}
use quillcache.Identity.{KvBlockKey}
use quillcache.KeyMap.{KeyMap, nat_key, find, put, delete}
use quillcache.KeyMap.Laws.{find-put, Unique, put-Unique, delete-Unique}
use quillcache.BlockStore.{
  local_ssd, block_key_eq_iff, block_key, Bytes, BlockMeta, WalRecord, commit, tombstone, Disk,
  LocalKvStore,
}
use quillcache.BlockStore.Serve.{
  Commit, apply_record, replay_wal, intact, admit, admit_each, recover,
}

replay_wal-Unique :
    (rs : List WalRecord) (m : KeyMap KvBlockKey Commit) → Unique m → Unique (replay_wal rs m)
unfolding replay_wal apply_record
replay_wal-Unique [] m u = u
replay_wal-Unique (commit key id len crc ∷ rs) m u =
    replay_wal-Unique rs (put key (id, len, crc) m) (put-Unique key (id, len, crc) m u)
replay_wal-Unique (tombstone key ∷ rs) m u =
    replay_wal-Unique rs (delete key m) (delete-Unique key m u)

module _ (crc32 : Bytes → ℕ) where
  -- The entries that a commit leaves after a recovery.
  abbrev pub readmitted_file : KeyMap ℕ Bytes → Option Commit → Option ℕ → Option ℕ
  readmitted_file files none old = old
  readmitted_file files (some c) old = if intact crc32 files c then some c.0 else old

  abbrev pub readmitted : KeyMap ℕ Bytes → Option Commit → Option BlockMeta → Option BlockMeta
  readmitted files none old = old
  readmitted files (some c) old =
      if intact crc32 files c
      then some (record { tier = local_ssd; bytes = c.1; last_access = 0 })
      else old

  admit_each-disk :
      (l : KeyMap KvBlockKey Commit) (s : LocalKvStore) → (admit_each crc32 l s).disk ≡ s.disk
  unfolding admit_each admit
  admit_each-disk [] s = refl
  admit_each-disk ((key, c) ∷ l) s = elim (Bool-cases (intact crc32 s.disk.files c)) [
    | inl y ↦ rw (y, admit_each) (admit_each-disk l (admit crc32 key c s))
    | inr n ↦ rw (n, admit_each) (admit_each-disk l s)
  ]

  admit_each-dram :
      (l : KeyMap KvBlockKey Commit) (s : LocalKvStore) → (admit_each crc32 l s).dram ≡ s.dram
  unfolding admit_each admit
  admit_each-dram [] s = refl
  admit_each-dram ((key, c) ∷ l) s = elim (Bool-cases (intact crc32 s.disk.files c)) [
    | inl y ↦ rw (y, admit_each) (admit_each-dram l (admit crc32 key c s))
    | inr n ↦ rw (n, admit_each) (admit_each-dram l s)
  ]

  admit_each-ssd :
      (k : KvBlockKey) (l : KeyMap KvBlockKey Commit) (s : LocalKvStore)
      → Unique l
      → find k (admit_each crc32 l s).ssd ≡ readmitted_file s.disk.files (find k l) (find k s.ssd)
  unfolding admit_each admit find
  admit_each-ssd k [] s u = refl
  admit_each-ssd k ((key, c) ∷ l) s u = ground (
    arith,
    admit_each-ssd k l s u.1,
    admit_each-ssd k l (admit crc32 key c s) u.1,
    find-put key k c.0 s.ssd,
    block_key_eq_iff key k,
  )

  admit_each-meta :
      (k : KvBlockKey) (l : KeyMap KvBlockKey Commit) (s : LocalKvStore)
      → Unique l
      → find k (admit_each crc32 l s).meta ≡ readmitted s.disk.files (find k l) (find k s.meta)
  unfolding admit_each admit find
  admit_each-meta k [] s u = refl
  admit_each-meta k ((key, c) ∷ l) s u = ground (
    arith,
    admit_each-meta k l s u.1,
    admit_each-meta k l (admit crc32 key c s) u.1,
    find-put key k (record { tier = local_ssd; bytes = c.1; last_access = 0 }) s.meta,
    block_key_eq_iff key k,
  )

  -- What stands in the maps of a recovered pool.
  pub recover-meta :
      (k : KvBlockKey) (disk : Disk) (d c : ℕ)
      → find k (recover crc32 disk d c).meta
        ≡ readmitted disk.files (find k (replay_wal disk.wal [])) none
  unfolding recover find
  recover-meta k disk d c =
      admit_each-meta k (replay_wal disk.wal []) _ (replay_wal-Unique disk.wal [] tt)

  pub recover-ssd :
      (k : KvBlockKey) (disk : Disk) (d c : ℕ)
      → find k (recover crc32 disk d c).ssd
        ≡ readmitted_file disk.files (find k (replay_wal disk.wal [])) none
  unfolding recover find
  recover-ssd k disk d c =
      admit_each-ssd k (replay_wal disk.wal []) _ (replay_wal-Unique disk.wal [] tt)

  pub recover-disk : (disk : Disk) (d c : ℕ) → (recover crc32 disk d c).disk ≡ disk
  unfolding recover
  recover-disk disk d c = admit_each-disk (replay_wal disk.wal []) _
