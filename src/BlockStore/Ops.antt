-- ===== src/BlockStore/Ops.antt =====
-- Moves of one block in crates/quillcache-store/src/lib.rs: LocalKvStore::put_dram, demote_to_ssd and
-- drop_block.
use quillcache.Prelude.{
  ℕ, ◌+◌, ◌-◌, String, Bool, true, false, not, ◌&&◌, Option, none, some, List, [], ◌∷◌, ◌++◌,
  if◌then◌else◌, length, keep, any,
}
use quillcache.Identity.{KvBlockKey}
use quillcache.StrMap.{StrMap, lookup, insert, remove}
use quillcache.KeyMap.{KeyMap, nat_key, find, put, delete}
use quillcache.BlockStore.{
  cpu_dram, local_ssd, block_key_eq, block_key, Bytes, BlockMeta, commit, tombstone, LocalKvStore,
  DiskWrite, written, file_failed, log_failed, is_ssd,
}

-- The set of the keys that carry one content hash.
abbrev pub members : String → StrMap (List KvBlockKey) → List KvBlockKey
members hash by_hash = elim (lookup hash by_hash) [ none ↦ [] | some keys ↦ keys ]

abbrev pub has_key : KvBlockKey → List KvBlockKey → Bool
has_key key keys = any (λ k. block_key_eq k key) keys

unfoldable pub track : KvBlockKey → StrMap (List KvBlockKey) → StrMap (List KvBlockKey)
unfolding lookup insert
track key by_hash =
    let keys = members key.block_hash by_hash in
    insert key.block_hash (if has_key key keys then keys else key ∷ keys) by_hash

abbrev pub keep_set : String → List KvBlockKey → StrMap (List KvBlockKey) → StrMap (List KvBlockKey)
keep_set hash [] by_hash = remove hash by_hash
keep_set hash (k ∷ keys) by_hash = insert hash (k ∷ keys) by_hash

unfoldable pub untrack : KvBlockKey → StrMap (List KvBlockKey) → StrMap (List KvBlockKey)
unfolding lookup insert remove
untrack key by_hash = elim (lookup key.block_hash by_hash) [
  | none ↦ by_hash
  | some keys ↦ keep_set key.block_hash (keep (λ k. not (block_key_eq k key)) keys) by_hash
]

-- `fs::remove_file` on the path of a key: its failure is ignored, and the file stays.
abbrev pub delete_file : (ℕ → Bool) → Option ℕ → KeyMap ℕ Bytes → KeyMap ℕ Bytes
delete_file undeletable none files = files
delete_file undeletable (some id) files = if undeletable id then files else delete id files

-- The block leaves its tier: its entry, its size and, on the disk, its file if it can be deleted.
unfoldable pub forget : KvBlockKey → BlockMeta → LocalKvStore → LocalKvStore
unfolding find delete
forget key m s =
    if is_ssd m.tier
    then record s {
      ssd = delete key s.ssd;
      ssd_bytes = s.ssd_bytes - m.bytes;
      disk = record (s.disk) {
        files = delete_file s.disk.undeletable (find key s.ssd) s.disk.files;
      };
    }
    else record s { dram = delete key s.dram; dram_bytes = s.dram_bytes - m.bytes }

unfoldable pub remove_internal : KvBlockKey → LocalKvStore → LocalKvStore
unfolding find delete forget untrack
remove_internal key s = elim (find key s.meta) [
  | none ↦ s
  | some m ↦ record (forget key m s) { meta = delete key s.meta; by_hash = untrack key s.by_hash }
]

unfoldable pub put_dram : KvBlockKey → Bytes → LocalKvStore → LocalKvStore
unfolding remove_internal put track
put_dram key bytes s =
    let now = s.clock + 1 in
    let s' = remove_internal key (record s { clock = now }) in
    record s' {
      dram = put key bytes s'.dram;
      dram_bytes = s'.dram_bytes + length bytes;
      meta = put key (record { tier = cpu_dram; bytes = length bytes; last_access = now }) s'.meta;
      by_hash = track key s'.by_hash;
      admits = s'.admits + 1;
    }

-- An operation that may end in an I/O error.
pub data IoResult (A : Type 0) : Type 0 where
  done : A → IoResult A
  failed : IoResult A

abbrev pub retier : KvBlockKey → KeyMap KvBlockKey BlockMeta → KeyMap KvBlockKey BlockMeta
retier key meta = elim (find key meta) [
  | none ↦ meta
  | some m ↦ put key (record m { tier = local_ssd }) meta
]

module _ (crc32 : Bytes → ℕ) (write : ℕ → DiskWrite) where
  -- The block file, then its commit. What fails leaves the store between the two tiers.
  unfoldable pub demote_to_ssd : KvBlockKey → LocalKvStore → IoResult Bool × LocalKvStore
  unfolding find put delete
  demote_to_ssd key s = elim (find key s.dram) [
    | none ↦ (done false, s)
    | some bytes ↦
        let id = s.next_file + 1 in
        let s' = record s {
          dram = delete key s.dram;
          dram_bytes = s.dram_bytes - length bytes;
          next_file = id;
        } in
        let with_file = λ (b : Bytes). record (s.disk) { files = put id b s.disk.files } in
        elim (write id) [
          | file_failed left ↦ elim left [
            | none ↦ (failed, s')
            | some part ↦ (failed, record s' { disk = with_file part })
          ]
          | log_failed ↦ (failed, record s' { disk = with_file bytes })
          | written ↦ (
            done true,
            record s' {
              ssd = put key id s.ssd;
              ssd_bytes = s.ssd_bytes + length bytes;
              meta = retier key s.meta;
              demotions = s.demotions + 1;
              disk = record (s.disk) {
                files = put id bytes s.disk.files;
                wal = s.disk.wal ++ commit key id (length bytes) (crc32 bytes) ∷ [];
              };
            },
          )
        ]
  ]

-- `logged` says whether the tombstone reached the log: its failure is ignored.
unfoldable pub drop_block : Bool → KvBlockKey → LocalKvStore → Bool × LocalKvStore
unfolding find delete forget untrack
drop_block logged key s = elim (find key s.meta) [
  | none ↦ (false, s)
  | some m ↦
      let s' = forget key m s in
      let wal' = if is_ssd m.tier && logged then s.disk.wal ++ tombstone key ∷ [] else s.disk.wal in
      (
        true,
        record s' {
          meta = delete key s.meta;
          by_hash = untrack key s.by_hash;
          evictions = s.evictions + 1;
          disk = record (s'.disk) { wal = wal' };
        },
      )
]
