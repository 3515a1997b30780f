-- ===== src/BlockStore/Serve.antt =====
-- Reads and recovery of crates/quillcache-store/src/lib.rs: LocalKvStore::get, get_raw and recover.
use quillcache.Prelude.{
  ℕ, ◌+◌, max, Bool, false, ◌&&◌, Option, none, some, List, [], ◌∷◌, ◌==◌, if◌then◌else◌, length,
}
use quillcache.Identity.{KvBlockKey, IdentityScope, from_key, reuse_violation}
use quillcache.StrMap.{lookup}
use quillcache.KeyMap.{KeyMap, nat_key, find, put, delete}
use quillcache.BlockStore.{
  CacheTier, local_ssd, block_key, Bytes, StoreError, not_found, unsafe, io, BlockMeta, WalRecord,
  commit, tombstone, Disk, LocalKvStore, is_ssd,
}
use quillcache.BlockStore.Ops.{track, members}

pub data Answer : Type 0 where
  served : Bytes → Answer
  refused : StoreError → Answer

-- The bytes of a resident block: those of its file, or those in memory.
unfoldable pub bytes_of : KvBlockKey → BlockMeta → LocalKvStore → Answer
unfolding find
bytes_of key m s =
    if is_ssd m.tier
    then elim (find key s.ssd) [
      | none ↦ refused not_found
      | some id ↦ elim (find id s.disk.files) [ none ↦ refused io | some bytes ↦ served bytes ]
    ]
    else elim (find key s.dram) [ none ↦ refused not_found | some bytes ↦ served bytes ]

unfoldable pub first_violation : IdentityScope → List KvBlockKey → StoreError
unfolding reuse_violation
first_violation scope [] = not_found
first_violation scope (k ∷ ks) =
    let rest = first_violation scope ks in
    elim (reuse_violation scope k) [ none ↦ rest | some violation ↦ unsafe violation ]

-- A hit counts as an access, whether or not its bytes can be read.
unfoldable pub get_block : KvBlockKey → LocalKvStore → Answer × LocalKvStore
unfolding find put bytes_of lookup from_key first_violation
get_block key s = elim (find key s.meta) [
  | none ↦ (refused (first_violation (from_key key) (members key.block_hash s.by_hash)), s)
  | some m ↦ (
    bytes_of key m s,
    record s {
      clock = s.clock + 1;
      meta = put key (record m { last_access = s.clock + 1 }) s.meta;
      hits = s.hits + 1;
    },
  )
]

unfoldable pub get_raw : KvBlockKey → LocalKvStore → Option Bytes
unfolding find bytes_of
get_raw key s = elim (find key s.meta) [
  | none ↦ none
  | some m ↦ elim (bytes_of key m s) [ served bytes ↦ some bytes | refused e ↦ none ]
]

unfoldable pub tier_of : KvBlockKey → LocalKvStore → Option CacheTier
unfolding find
tier_of key s = elim (find key s.meta) [ none ↦ none | some m ↦ some m.tier ]

-- A commit as it is replayed: the number of the file, its length and its checksum.
abbrev pub Commit : Type 0
Commit = ℕ × ℕ × ℕ

unfoldable pub apply_record : WalRecord → KeyMap KvBlockKey Commit → KeyMap KvBlockKey Commit
unfolding put delete
apply_record (commit key id len crc) live = put key (id, len, crc) live
apply_record (tombstone key) live = delete key live

unfoldable pub replay_wal : List WalRecord → KeyMap KvBlockKey Commit → KeyMap KvBlockKey Commit
unfolding apply_record
replay_wal [] live = live
replay_wal (r ∷ rs) live = replay_wal rs (apply_record r live)

module _ (crc32 : Bytes → ℕ) where
  -- Whether the file of a commit is there, with the length and the checksum of the commit.
  unfoldable pub intact : KeyMap ℕ Bytes → Commit → Bool
  unfolding find
  intact files (id, len, crc) = elim (find id files) [
    | none ↦ false
    | some bytes ↦ (length bytes == len) && (crc32 bytes == crc)
  ]

  -- One round of the loop over the surviving commits.
  unfoldable pub admit : KvBlockKey → Commit → LocalKvStore → LocalKvStore
  unfolding put track
  admit key (id, len, crc) s = record s {
    ssd = put key id s.ssd;
    meta = put key (record { tier = local_ssd; bytes = len; last_access = 0 }) s.meta;
    by_hash = track key s.by_hash;
    ssd_bytes = s.ssd_bytes + len;
    next_file = max s.next_file (id + 1);
  }

  unfoldable pub admit_each : KeyMap KvBlockKey Commit → LocalKvStore → LocalKvStore
  unfolding intact admit
  admit_each [] s = s
  admit_each ((key, c) ∷ live) s =
      admit_each live (if intact s.disk.files c then admit key c s else s)

  -- The volatile tier starts empty, and the log is opened where it ends.
  unfoldable pub recover : Disk → ℕ → ℕ → LocalKvStore
  unfolding replay_wal admit_each
  recover disk dram_capacity ssd_capacity = admit_each (replay_wal disk.wal []) (record {
    dram = [];
    ssd = [];
    meta = [];
    by_hash = [];
    dram_capacity = dram_capacity;
    ssd_capacity = ssd_capacity;
    dram_bytes = 0;
    ssd_bytes = 0;
    clock = 0;
    next_file = 0;
    admits = 0;
    hits = 0;
    demotions = 0;
    evictions = 0;
    disk = disk;
  })
