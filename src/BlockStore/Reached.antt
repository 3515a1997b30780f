-- ===== src/BlockStore/Reached.antt =====
-- Runs of the byte pool of crates/quillcache-store/src/lib.rs: a read counts as an access, and every
-- sequence of operations from a new pool.
use quillcache.Prelude.{
  ℕ, ◌+◌, ◌≡◌, subst, inl, inr, Bool, false, Option, none, some, arith, Bool-cases, Option-cases,
}
use quillcache.Identity.{KvBlockKey}
use quillcache.KeyMap.{KeyMap, nat_key, find, put}
use quillcache.KeyMap.Laws.{find-put, put-Unique, total-put}
use quillcache.BlockStore.{
  block_key_eq, block_key_eq_iff, block_key, Bytes, BlockMeta, Disk, LocalKvStore, DiskWrite,
  written, create,
}
use quillcache.BlockStore.Ops.{put_dram, demote_to_ssd, drop_block}
use quillcache.BlockStore.Serve.{get_block}
use quillcache.BlockStore.Valid.{dram_size, ssd_size, Home, IsValid, create-IsValid}
use quillcache.BlockStore.Remove.{drop_block-IsValid}
use quillcache.BlockStore.Held.{put_dram-IsValid}
use quillcache.BlockStore.Demote.{demote_to_ssd-IsValid}

Home-touched :
    (files : KeyMap ℕ Bytes) (m : BlockMeta) (a : ℕ) (d : Option Bytes) (p : Option ℕ)
    → Home files (some m) d p
    → Home files (some (record m { last_access = a })) d p
Home-touched files m a none none h = h
Home-touched files m a none (some id) h = h
Home-touched files m a (some bytes) none h = h
Home-touched files m a (some bytes) (some id) h = h

module _ (crc32 : Bytes → ℕ) (k : KvBlockKey) (s : LocalKvStore) (v : IsValid crc32 s) where
  module _ (m : BlockMeta) (e : find k s.meta ≡ some m) (a : ℕ) where
    touched-homes :
        (j : KvBlockKey)
        → Home s.disk.files
            (find j (put k (record m { last_access = a }) s.meta))
            (find j s.dram)
            (find j s.ssd)
    touched-homes j = elim (Bool-cases (block_key_eq k j)) [
      | inl y ↦
          let own : find j s.meta ≡ some m =
            subst (λ x. find x s.meta ≡ some m) ((block_key_eq_iff k j).0 y) e in
          rw (find-put k j (record m { last_access = a }) s.meta, y)
            (Home-touched s.disk.files m a (find j s.dram) (find j s.ssd)
              (subst (λ o. Home s.disk.files o (find j s.dram) (find j s.ssd)) own (v.homes j)))
      | inr x ↦ rw (find-put k j (record m { last_access = a }) s.meta, x) (v.homes j)
    ]

    touched-IsValid :
        (now n : ℕ)
        → IsValid crc32
            (record s { clock = now; meta = put k (record m { last_access = a }) s.meta; hits = n })
    touched-IsValid now n =
        let dram_total = total-put dram_size k (record m { last_access = a }) s.meta in
        let ssd_total = total-put ssd_size k (record m { last_access = a }) s.meta in
        record {
          homes = touched-homes;
          durable = v.durable;
          fresh = v.fresh;
          single = v.single;
          unique = put-Unique k (record m { last_access = a }) s.meta v.unique;
          deletable = v.deletable;
          dram_sum = ground (arith, v.dram_sum, dram_total, e);
          ssd_sum = ground (arith, v.ssd_sum, ssd_total, e);
        }

  get_block-IsValid : IsValid crc32 (get_block k s).1
  unfolding get_block
  get_block-IsValid = elim (Option-cases (find k s.meta)) [
    | inl e ↦ rw (e, get_block) v
    | inr (m, e) ↦ rw (e, get_block) (touched-IsValid m e (s.clock + 1) (s.clock + 1) (s.hits + 1))
  ]

-- The states that a new pool can come to while its disk works: what is written is durable, and a
-- file that is deleted is gone. A tombstone may fail to be logged.
pub data Reached (crc32 : Bytes → ℕ) : LocalKvStore → Type 0 where
  created :
      (disk : Disk) (dram ssd : ℕ)
      → ((id : ℕ) → disk.undeletable id ≡ false)
      → Reached crc32 (create disk dram ssd)
  stored :
      (s : LocalKvStore) (k : KvBlockKey) (bytes : Bytes)
      → Reached crc32 s
      → Reached crc32 (put_dram k bytes s)
  demoted :
      (s : LocalKvStore) (k : KvBlockKey) (write : ℕ → DiskWrite)
      → Reached crc32 s
      → write (s.next_file + 1) ≡ written
      → Reached crc32 (demote_to_ssd crc32 write k s).1
  dropped :
      (s : LocalKvStore) (k : KvBlockKey) (logged : Bool)
      → Reached crc32 s
      → Reached crc32 (drop_block logged k s).1
  read_block :
      (s : LocalKvStore) (k : KvBlockKey) → Reached crc32 s → Reached crc32 (get_block k s).1

-- On a disk on which no deletion of a file fails, in every state that a new pool can come to by puts,
-- demotions whose writes succeed, drops and reads: each key is nowhere or in exactly one tier with the size recorded for it, the sums of the
-- two tiers are those of their blocks, no two keys have one file, and the log with the files on
-- the disk gives back exactly the files in use.
pub Reached-IsValid : (crc32 : Bytes → ℕ) (s : LocalKvStore) → Reached crc32 s → IsValid crc32 s
Reached-IsValid crc32 s (created disk dram ssd works) = create-IsValid crc32 disk dram ssd works
Reached-IsValid crc32 s' (stored s k bytes r) =
    put_dram-IsValid crc32 k bytes s (Reached-IsValid crc32 s r)
Reached-IsValid crc32 s' (demoted s k write r w) =
    demote_to_ssd-IsValid crc32 k s (Reached-IsValid crc32 s r) write w
Reached-IsValid crc32 s' (dropped s k logged r) =
    drop_block-IsValid crc32 k s (Reached-IsValid crc32 s r) logged
Reached-IsValid crc32 s' (read_block s k r) =
    get_block-IsValid crc32 k s (Reached-IsValid crc32 s r)
