-- ===== src/DiskTier/Durable.antt =====
-- An object of crates/quillcache-store/src/disk_tier.rs outlives the process: DiskTier::put, recover
-- and get.
use quillcache.Prelude.{
  ℕ, ◌+◌, String, ◌≡◌, refl, sym, ap, ◌∙◌, inl, inr, true, Option, none, some, arith, if◌then◌else◌,
  Option-cases, u64_max,
}
use quillcache.Identity.{KvBlockKey, IdentityScope}
use quillcache.KeyMap.{nat_key, find}
use quillcache.KeyMap.Laws.{find-put_self}
use quillcache.BlockStore.{block_key, Bytes, LocalKvStore, DiskWrite, written}
use quillcache.BlockStore.Ops.{put_dram, demote_to_ssd}
use quillcache.BlockStore.Serve.{Answer, served, refused, get_block, get_raw, bytes_of}
use quillcache.BlockStore.Valid.{IsValid}
use quillcache.BlockStore.Held.{put_dram-IsValid}
use quillcache.BlockStore.Demote.{demote_to_ssd-IsValid, demote_to_ssd-result}
use quillcache.BlockStore.Survival.{on_ssd, stored_bytes, in_file, recover-get_raw}
use quillcache.Types.{ok}
use quillcache.DiskTier.{DiskTier, durable_key, recover_tier, put_object, get_object, to_result}

abbrev raw_of : Answer → Option Bytes
raw_of (served bytes) = some bytes
raw_of (refused e) = none

raw_of-some : (a : Answer) (bytes : Bytes) → raw_of a ≡ some bytes → a ≡ served bytes
raw_of-some (served b) bytes e = ground (arith, e)
raw_of-some (refused x) bytes e = absurd (ground (arith, e))

-- A guarded read by the exact key serves what a raw read finds.
get_block-get_raw :
    (k : KvBlockKey) (s : LocalKvStore) (bytes : Bytes)
    → get_raw k s ≡ some bytes
    → (get_block k s).0 ≡ served bytes
unfolding get_block get_raw
get_block-get_raw k s bytes e = elim (Option-cases (find k s.meta)) [
  | inl o ↦ absurd (ground arith)
  | inr (m, o) ↦
      let opened : get_raw k s ≡ raw_of (bytes_of k m s) = rw (o, get_raw) refl in
      rw (o, get_block) (raw_of-some (bytes_of k m s) bytes (sym opened ∙ e))
]

module _ (crc32 : Bytes → ℕ) (k : KvBlockKey) (s : LocalKvStore) (v : IsValid crc32 s)
    (write : ℕ → DiskWrite) (w : write (s.next_file + 1) ≡ written) where
  -- A block that a demotion took out of memory can be read from its file.
  demoted-durable :
      (bytes : Bytes)
      → find k s.dram ≡ some bytes
      → let s' = (demote_to_ssd crc32 write k s).1 in
        (on_ssd k s' ≡ true) × (get_raw k s' ≡ some bytes)
  demoted-durable bytes d =
      let (m, e, inside, r) = demote_to_ssd-result crc32 k s v write bytes d w in
      let s' = (demote_to_ssd crc32 write k s).1 in
      let v' = demote_to_ssd-IsValid crc32 k s v write w in
      let p : find k s'.ssd ≡ some (s.next_file + 1) =
        ap (λ x. find k x.1.ssd) r ∙ find-put_self k (s.next_file + 1) s.ssd in
      let f : find (s.next_file + 1) s'.disk.files ≡ some bytes =
        ap (λ x. find (s.next_file + 1) x.1.disk.files) r
        ∙ find-put_self (s.next_file + 1) bytes s.disk.files in
      let (there, bytes', f', raw) = in_file crc32 k s' v' (s.next_file + 1) p in
      (there, raw ∙ sym f' ∙ f)

get_object-get_raw :
    (key : String) (scope : IdentityScope) (t : DiskTier) (bytes : Bytes)
    → get_raw (durable_key key scope) t.store ≡ some bytes
    → (get_object key scope t).0 ≡ ok bytes
unfolding get_object
get_object-get_raw key scope t bytes e =
    ap to_result (get_block-get_raw (durable_key key scope) t.store bytes e)

module _ (crc32 : Bytes → ℕ) (write : ℕ → DiskWrite) (works : (id : ℕ) → write id ≡ written)
    (io_text : String) (key : String) (scope : IdentityScope) (bytes : Bytes) (t : DiskTier)
    (v : IsValid crc32 t.store) where
  put_object-get_raw :
      let t' = (put_object crc32 write io_text key scope bytes t).1 in
      (on_ssd (durable_key key scope) t'.store ≡ true)
      × (get_raw (durable_key key scope) t'.store ≡ some bytes)
  unfolding put_object
  put_object-get_raw =
      let k = durable_key key scope in
      let s = put_dram k bytes t.store in
      let d = stored_bytes k bytes t.store in
      let v' = put_dram-IsValid crc32 k bytes t.store v in
      let (m, e, inside, r) =
        demote_to_ssd-result crc32 k s v' write bytes d (works (s.next_file + 1)) in
      rw (ap (λ x. x.0) r, put_object)
        (demoted-durable crc32 k s v' write (works (s.next_file + 1)) bytes d)

  put_object-IsValid : IsValid crc32 (put_object crc32 write io_text key scope bytes t).1.store
  unfolding put_object
  put_object-IsValid =
      let k = durable_key key scope in
      let s = put_dram k bytes t.store in
      let d = stored_bytes k bytes t.store in
      let v' = put_dram-IsValid crc32 k bytes t.store v in
      let (m, e, inside, r) =
        demote_to_ssd-result crc32 k s v' write bytes d (works (s.next_file + 1)) in
      rw (ap (λ x. x.0) r, put_object)
        (demote_to_ssd-IsValid crc32 k s v' write (works (s.next_file + 1)))

  -- An object that is put into a tier whose store is valid, while the disk takes every write and
  -- every deletion of a file, is read
  -- with the same bytes by its identity from the tier, and also from the tier that is recovered from
  -- the disk after a crash that follows the put.
  pub put_object-recover_tier :
      let t' = (put_object crc32 write io_text key scope bytes t).1 in
      ((get_object key scope t').0 ≡ ok bytes)
      × ((get_object key scope (recover_tier crc32 t'.store.disk)).0 ≡ ok bytes)
  unfolding recover_tier
  put_object-recover_tier =
      let k = durable_key key scope in
      let t' = (put_object crc32 write io_text key scope bytes t).1 in
      let (there, raw) = put_object-get_raw in
      let survives = recover-get_raw crc32 k t'.store put_object-IsValid 0 u64_max in
      let same = ap (λ b. if b then get_raw k t'.store else none) there ∙ raw in
      (
        get_object-get_raw key scope t' bytes raw,
        get_object-get_raw key scope (recover_tier crc32 t'.store.disk) bytes (survives ∙ same),
      )
