-- ===== src/DiskTier.antt =====
-- crates/quillcache-store/src/disk_tier.rs: DiskTier, the tier that keeps every object in a file of a
-- LocalKvStore.
pub mod Durable
mod Examples
use Prim.Native.String.{◌++◌ as text_append}
use quillcache.Prelude.{
  ℕ, zero, suc, ◌+◌, ◌-◌, ◌*◌, ◌/◌, ◌%◌, ◌^◌, ◌≤◌, ◌<◌, min, max, String, ◌≡◌, refl, sym, ap, ◌∙◌,
  subst, ◌≢◌, ◌↔◌, ◌⊎◌, inl, inr, Bool, true, false, not, ◌&&◌, ◌||◌, false≢true, Option, none,
  some, List, [], ◌∷◌, ◌++◌, map, arith, str_eq, eq_iff, ltb, leb, ◌==◌, if◌then◌else◌, ltb→lt,
  lt→ltb, leb→le, ==_iff, Bool-cases, Option-cases, length, get_elem?, set, get_or, take, drop,
  replicate, remove_at, keep, any, All, length-append, length-set, length-keep-le, length-map,
  length-take-le, take-append, drop-append, All-append, u64_mod, u64_max, u32_mod, add64, sub64,
  mul64, add32, sub32,
}
use quillcache.Identity.{KvBlockKey, IdentityScope}
use quillcache.KeyMap.{find, put, delete}
use quillcache.BlockStore.{
  Bytes, StoreError, not_found, unsafe, io as store_io, Disk, LocalKvStore, DiskWrite, create,
}
use quillcache.BlockStore.Ops.{IoResult, done, failed, put_dram, demote_to_ssd}
use quillcache.BlockStore.Serve.{Answer, served, refused, get_block, recover}
use quillcache.Types.{ErrorCode, object_not_found, io, unsafe_reuse, Result, ok, err}
use quillcache.Replica.{ReplicaData, disk}

unfoldable pub durable_key : String → IdentityScope → KvBlockKey
durable_key key scope = record {
  model_id = scope.model_id;
  tokenizer_id = scope.tokenizer_id;
  adapter_id = scope.adapter_id;
  tenant_id = scope.tenant_id;
  prefix_hash = "";
  block_hash = key;
  block_index = 0;
  token_count = 0;
}

pub record DiskTier : Type 0 where
  pub store : LocalKvStore

-- Nothing stays in memory, and no file is evicted.
unfoldable pub open_tier : Disk → DiskTier
unfolding create
open_tier dir = record { store = create dir 0 u64_max }

module _ (crc32 : Bytes → ℕ) where
  unfoldable pub recover_tier : Disk → DiskTier
  unfolding recover
  recover_tier dir = record { store = recover crc32 dir 0 u64_max }

  -- `io_text` is the text of the error that the disk gives.
  unfoldable pub put_object :
      (ℕ → DiskWrite)
      → String
      → String
      → IdentityScope
      → Bytes
      → DiskTier
      → Result ReplicaData × DiskTier
  unfolding durable_key put_dram demote_to_ssd
  put_object write io_text key scope bytes t =
      let durable = durable_key key scope in
      let (r, store') = demote_to_ssd crc32 write durable (put_dram durable bytes t.store) in
      elim r [
        | failed ↦ (err (io io_text), record { store = store' })
        | done moved ↦
            (ok (disk (text_append "durable:" key) (length bytes)), record { store = store' })
      ]

abbrev pub to_result : Answer → Result Bytes
to_result (served bytes) = ok bytes
to_result (refused not_found) = err object_not_found
to_result (refused (unsafe violation)) = err (unsafe_reuse violation)
to_result (refused store_io) = err object_not_found

unfoldable pub get_object : String → IdentityScope → DiskTier → Result Bytes × DiskTier
unfolding durable_key get_block
get_object key scope t =
    let (answer, store') = get_block (durable_key key scope) t.store in
    (to_result answer, record { store = store' })

unfoldable pub tier_len : DiskTier → ℕ
tier_len t = length t.store.meta
