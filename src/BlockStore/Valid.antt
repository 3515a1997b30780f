-- ===== src/BlockStore/Valid.antt =====
-- What holds of the byte pool of crates/quillcache-store/src/lib.rs between two operations: where
-- each block is, how the sums stand, and what the disk would give back.
use quillcache.Prelude.{
  ℕ, ◌≤◌, ◌<◌, ◌≡◌, refl, ap, ◌∙◌, ◌⊎◌, inl, inr, false, Option, none, some, [], arith, ◌==◌,
  if◌then◌else◌, ==_iff, Bool-cases, length,
}
use quillcache.Identity.{KvBlockKey}
use quillcache.KeyMap.{KeyMap, nat_key, find, put, delete}
use quillcache.KeyMap.Laws.{find-put, find-delete, Unique, total}
use quillcache.BlockStore.{
  cpu_dram, local_ssd, block_key, Bytes, BlockMeta, Disk, LocalKvStore, is_ssd, create,
}
use quillcache.BlockStore.Serve.{Commit, replay_wal, intact}

-- What a block adds to the size of either tier.
abbrev pub dram_size : BlockMeta → ℕ
dram_size m = if is_ssd m.tier then 0 else m.bytes

abbrev pub ssd_size : BlockMeta → ℕ
ssd_size m = if is_ssd m.tier then m.bytes else 0

-- A block in memory, and a block in a file.
abbrev pub InMemory : BlockMeta → Bytes → Type 0
InMemory m bytes = (m.tier ≡ cpu_dram) × (length bytes ≡ m.bytes)

abbrev pub InFile : KeyMap ℕ Bytes → BlockMeta → ℕ → Type 0
InFile files m id =
    (m.tier ≡ local_ssd) × (bytes : Bytes) × (find id files ≡ some bytes) × (length bytes ≡ m.bytes)

-- A key is nowhere, or in exactly one tier, with the size that is recorded.
abbrev pub Home : KeyMap ℕ Bytes → Option BlockMeta → Option Bytes → Option ℕ → Type 0
Home files none none none = Unit {0}
Home files none none (some id) = ⊥
Home files none (some bytes) none = ⊥
Home files none (some bytes) (some id) = ⊥
Home files (some m) none none = ⊥
Home files (some m) none (some id) = InFile files m id
Home files (some m) (some bytes) none = InMemory m bytes
Home files (some m) (some bytes) (some id) = ⊥

-- The file that a commit gives back after a crash.
abbrev pub committed : (Bytes → ℕ) → KeyMap ℕ Bytes → Option Commit → Option ℕ
committed crc32 files none = none
committed crc32 files (some c) = if intact crc32 files c then some c.0 else none

abbrev pub live : LocalKvStore → KeyMap KvBlockKey Commit
live s = replay_wal s.disk.wal []

-- The disk is one that deletes every file it is asked to: a block that is overwritten has no
-- tombstone, so a commit whose file stays would be given back.
pub record IsValid (crc32 : Bytes → ℕ) (s : LocalKvStore) : Type 0 where
  pub homes : (k : KvBlockKey) → Home s.disk.files (find k s.meta) (find k s.dram) (find k s.ssd)
  pub durable : (k : KvBlockKey) → committed crc32 s.disk.files (find k (live s)) ≡ find k s.ssd
  pub fresh : (k : KvBlockKey) (c : Commit) → find k (live s) ≡ some c → c.0 ≤ s.next_file
  pub single : (j k : KvBlockKey) (id : ℕ) → find j s.ssd ≡ some id → find k s.ssd ≡ some id → j ≡ k
  pub unique : Unique s.meta
  pub deletable : (id : ℕ) → s.disk.undeletable id ≡ false
  pub dram_sum : s.dram_bytes ≡ total dram_size s.meta
  pub ssd_sum : s.ssd_bytes ≡ total ssd_size s.meta

pub create-IsValid :
    (crc32 : Bytes → ℕ) (disk : Disk) (dram ssd : ℕ)
    → ((id : ℕ) → disk.undeletable id ≡ false)
    → IsValid crc32 (create disk dram ssd)
unfolding create
create-IsValid crc32 disk dram ssd works = record {
  homes = λ k. unfold find in tt;
  durable = λ k. unfold find replay_wal in refl;
  fresh = λ k c e. unfold find replay_wal in ground arith;
  single = λ j k id e f. unfold find in ground arith;
  unique = tt;
  deletable = works;
  dram_sum = unfold total in refl;
  ssd_sum = unfold total in refl;
}

-- The two places of a resident block.
pub Home-cases :
    (files : KeyMap ℕ Bytes) (m : BlockMeta) (d : Option Bytes) (p : Option ℕ)
    → Home files (some m) d p
    → ((bytes : Bytes) × (d ≡ some bytes) × (p ≡ none) × InMemory m bytes)
      ⊎ ((id : ℕ) × (d ≡ none) × (p ≡ some id) × InFile files m id)
Home-cases files m none none h = absurd h
Home-cases files m none (some id) h = inr (id, refl, refl, h)
Home-cases files m (some bytes) none h = inl (bytes, refl, refl, h)
Home-cases files m (some bytes) (some id) h = absurd h

-- Other files may change.
pub Home-files :
    (files files' : KeyMap ℕ Bytes) (m : Option BlockMeta) (d : Option Bytes) (p : Option ℕ)
    → ((id : ℕ) → p ≡ some id → find id files' ≡ find id files)
    → Home files m d p
    → Home files' m d p
Home-files files files' none none none f h = tt
Home-files files files' none none (some id) f h = h
Home-files files files' none (some bytes) none f h = h
Home-files files files' none (some bytes) (some id) f h = h
Home-files files files' (some m) none none f h = h
Home-files files files' (some m) none (some id) f h = (h.0, h.1, f id refl ∙ h.2, h.3)
Home-files files files' (some m) (some bytes) none f h = h
Home-files files files' (some m) (some bytes) (some id) f h = h

module _ (crc32 : Bytes → ℕ) where
  intact-same :
      (files files' : KeyMap ℕ Bytes) (c : Commit)
      → find c.0 files' ≡ find c.0 files
      → intact crc32 files' c ≡ intact crc32 files c
  unfolding intact
  intact-same files files' (id, len, crc) e = rw (e, intact) refl

  intact-absent :
      (files : KeyMap ℕ Bytes) (c : Commit) → find c.0 files ≡ none → intact crc32 files c ≡ false
  unfolding intact
  intact-absent files (id, len, crc) e = rw (e, intact) refl

  -- Without one file, the commits that rest on it are gone, and the others stand.
  pub committed-delete :
      (files : KeyMap ℕ Bytes) (id : ℕ) (o : Option Commit)
      → committed crc32 (delete id files) o
        ≡ elim (committed crc32 files o) [ none ↦ none | some i ↦ if id == i then none else some i ]
  committed-delete files id none = refl
  committed-delete files id (some c) = elim (Bool-cases (id == c.0)) [
    | inl y ↦
        let same : id ≡ c.0 = (==_iff id c.0).0 y in
        let gone : find c.0 (delete id files) ≡ none =
          find-delete id c.0 files ∙ ap (λ b. if b then none else find c.0 files) y in
        rw (intact-absent (delete id files) c gone) (ground arith)
    | inr n ↦
        let kept : find c.0 (delete id files) ≡ find c.0 files =
          find-delete id c.0 files ∙ ap (λ b. if b then none else find c.0 files) n in
        rw (intact-same files (delete id files) c kept) (ground arith)
  ]

  -- A file with a new number changes nothing that was committed.
  pub committed-put :
      (files : KeyMap ℕ Bytes) (id : ℕ) (bytes : Bytes) (o : Option Commit)
      → ((c : Commit) → o ≡ some c → c.0 < id)
      → committed crc32 (put id bytes files) o ≡ committed crc32 files o
  committed-put files id bytes none f = refl
  committed-put files id bytes (some c) f =
      let n : (id == c.0) ≡ false = ground (arith, f c refl) in
      let kept : find c.0 (put id bytes files) ≡ find c.0 files =
        find-put id c.0 bytes files ∙ ap (λ b. if b then some bytes else find c.0 files) n in
      rw (intact-same files (put id bytes files) c kept) refl
