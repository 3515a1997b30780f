-- ===== src/BlockStore/Lost.antt =====
-- A demotion that fails in crates/quillcache-store/src/lib.rs: LocalKvStore::demote_to_ssd when the
-- disk does not take the block.
use quillcache.Prelude.{ℕ, ◌+◌, ◌≡◌, refl, ap, ◌∙◌, subst, ◌≢◌, false, none, some, arith}
use quillcache.Identity.{KvBlockKey}
use quillcache.KeyMap.{nat_key, find, delete}
use quillcache.KeyMap.Laws.{find-delete_self}
use quillcache.BlockStore.{
  cpu_dram, block_key, Bytes, BlockMeta, LocalKvStore, DiskWrite, written, file_failed, log_failed,
}
use quillcache.BlockStore.Ops.{done, failed, demote_to_ssd}
use quillcache.BlockStore.Serve.{get_raw, bytes_of, tier_of}
use quillcache.BlockStore.Valid.{Home, IsValid}
use quillcache.BlockStore.Held.{Home-held}

module _ (crc32 : Bytes → ℕ) (write : ℕ → DiskWrite) (k : KvBlockKey) (s : LocalKvStore) where
  -- After a failure the block is in no tier, and its entry still says that it is in memory.
  stranded :
      (bytes : Bytes) (w : DiskWrite)
      → find k s.dram ≡ some bytes
      → write (s.next_file + 1) ≡ w
      → w ≢ written
      → ((demote_to_ssd crc32 write k s).0 ≡ failed)
        × ((demote_to_ssd crc32 write k s).1.dram ≡ delete k s.dram)
        × ((demote_to_ssd crc32 write k s).1.meta ≡ s.meta)
  unfolding demote_to_ssd
  stranded bytes written d e n = absurd (n refl)
  stranded bytes (file_failed none) d e n = rw (d, demote_to_ssd) (rw e (refl, refl, refl))
  stranded bytes (file_failed (some part)) d e n = rw (d, demote_to_ssd) (rw e (refl, refl, refl))
  stranded bytes log_failed d e n = rw (d, demote_to_ssd) (rw e (refl, refl, refl))

no_bytes :
    (k : KvBlockKey) (s : LocalKvStore) (m : BlockMeta)
    → find k s.meta ≡ some m
    → m.tier ≡ cpu_dram
    → find k s.dram ≡ none
    → get_raw k s ≡ none
unfolding get_raw bytes_of
no_bytes k s m e t d = ground (arith, e, t, d)

still_listed :
    (k : KvBlockKey) (s : LocalKvStore) (m : BlockMeta)
    → find k s.meta ≡ some m
    → m.tier ≡ cpu_dram
    → tier_of k s ≡ some cpu_dram
unfolding tier_of
still_listed k s m e t = rw (e, tier_of) (ap some t)

demote_absent :
    (crc32 : Bytes → ℕ) (write : ℕ → DiskWrite) (k : KvBlockKey) (s : LocalKvStore)
    → find k s.dram ≡ none
    → demote_to_ssd crc32 write k s ≡ (done false, s)
unfolding demote_to_ssd
demote_absent crc32 write k s d = rw (d, demote_to_ssd) refl

-- When the block of a key is in the memory of a valid pool, on a disk on which no deletion of a file
-- fails, and the disk does not take the block file or its commit, the demotion is an error that loses the block: its bytes can no longer be
-- read, its entry still says that it is in memory, and a later demotion of it, with whatever disk,
-- answers that there was nothing to demote and changes nothing.
pub demote_to_ssd-failed :
    (crc32 : Bytes → ℕ) (write write' : ℕ → DiskWrite) (k : KvBlockKey) (s : LocalKvStore)
    (bytes : Bytes)
    → IsValid crc32 s
    → find k s.dram ≡ some bytes
    → write (s.next_file + 1) ≢ written
    → let s' = (demote_to_ssd crc32 write k s).1 in
      ((demote_to_ssd crc32 write k s).0 ≡ failed)
      × (get_raw k s' ≡ none)
      × (tier_of k s' ≡ some cpu_dram)
      × (demote_to_ssd crc32 write' k s' ≡ (done false, s'))
demote_to_ssd-failed crc32 write write' k s bytes v d n =
    let s' = (demote_to_ssd crc32 write k s).1 in
    let (m, e, p, inside) =
      Home-held s.disk.files (find k s.meta) bytes (find k s.ssd)
        (subst (λ o. Home s.disk.files (find k s.meta) o (find k s.ssd)) d (v.homes k)) in
    let (r, dram, meta) = stranded crc32 write k s bytes (write (s.next_file + 1)) d refl n in
    let gone : find k s'.dram ≡ none = ap (find k) dram ∙ find-delete_self k s.dram in
    let listed : find k s'.meta ≡ some m = ap (find k) meta ∙ e in
    (
      r,
      no_bytes k s' m listed inside.0 gone,
      still_listed k s' m listed inside.0,
      demote_absent crc32 write' k s' gone,
    )
