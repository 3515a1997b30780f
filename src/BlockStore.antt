-- ===== src/BlockStore.antt =====
-- crates/quillcache-store/src/lib.rs: LocalKvStore, the byte pool of one node with a tier in memory
-- and a tier of files, the log that makes the files recoverable, and the guarded read. Paths are
-- the numbers in the files' names, and the log is the list of the records that its frames hold.
pub mod Ops
pub mod Policy
pub mod Serve
pub mod Valid
pub mod Remove
pub mod Held
pub mod Demote
pub mod Reached
pub mod Coldest
pub mod Capacity
pub mod Lost
pub mod Recovery
pub mod Survival
mod Examples
use quillcache.Prelude.{
  ℕ, zero, suc, ◌+◌, ◌-◌, ◌*◌, ◌/◌, ◌%◌, ◌^◌, ◌≤◌, ◌<◌, min, max, String, ◌≡◌, refl, sym, ap, ◌∙◌,
  subst, ◌≢◌, ◌↔◌, ◌⊎◌, inl, inr, Bool, true, false, not, ◌&&◌, ◌||◌, false≢true, Option, none,
  some, List, [], ◌∷◌, ◌++◌, map, arith, str_eq, eq_iff, ltb, leb, ◌==◌, if◌then◌else◌, ltb→lt,
  lt→ltb, leb→le, ==_iff, Bool-cases, Option-cases, length, get_elem?, set, get_or, take, drop,
  replicate, remove_at, keep, any, All, length-append, length-set, length-keep-le, length-map,
  length-take-le, take-append, drop-append, All-append, u64_mod, u64_max, u32_mod, add64, sub64,
  mul64, add32, sub32,
}
use quillcache.Identity.{
  KvBlockKey, IdentityScope, ReuseViolation, from_key, reuse_violation, opt_eq,
}
use quillcache.Identity.Guard.{opt_eq_iff}
use quillcache.StrMap.{StrMap, lookup, insert, remove}
use quillcache.KeyMap.{KeyEq, KeyMap, nat_key, find, put, delete}

-- crates/quillcache-core/src/lib.rs.
pub data CacheTier : Type 0 where
  hbm remote_hbm cpu_dram local_ssd object_store : CacheTier

-- The derived `==` of block keys.
abbrev pub block_key_eq : KvBlockKey → KvBlockKey → Bool
block_key_eq a b =
    str_eq a.model_id b.model_id
    && str_eq a.tokenizer_id b.tokenizer_id
    && opt_eq a.adapter_id b.adapter_id
    && str_eq a.tenant_id b.tenant_id
    && str_eq a.prefix_hash b.prefix_hash
    && str_eq a.block_hash b.block_hash
    && (a.block_index == b.block_index)
    && (a.token_count == b.token_count)

pub block_key_eq_iff : (a b : KvBlockKey) → (block_key_eq a b ≡ true) ↔ (a ≡ b)
block_key_eq_iff a b = ground (
  arith,
  eq_iff a.model_id b.model_id,
  eq_iff a.tokenizer_id b.tokenizer_id,
  opt_eq_iff a.adapter_id b.adapter_id,
  eq_iff a.tenant_id b.tenant_id,
  eq_iff a.prefix_hash b.prefix_hash,
  eq_iff a.block_hash b.block_hash,
)

instance abbrev pub block_key : KeyEq KvBlockKey
block_key = record { beq = block_key_eq; beq_iff = block_key_eq_iff }

abbrev pub Bytes : Type 0
Bytes = List ℕ

pub data StoreError : Type 0 where
  not_found : StoreError
  unsafe : ReuseViolation → StoreError
  io : StoreError

pub record BlockMeta : Type 0 where
  pub tier : CacheTier
  pub bytes : ℕ
  pub last_access : ℕ

pub data WalRecord : Type 0 where
  commit : KvBlockKey → ℕ → ℕ → ℕ → WalRecord
  tombstone : KvBlockKey → WalRecord

-- What outlives the process: the block files by their number, and the log. Of a file that is
-- `undeletable`, `remove_file` fails, and the file stays.
pub record Disk : Type 0 where
  pub undeletable : ℕ → Bool
  pub files : KeyMap ℕ Bytes
  pub wal : List WalRecord

-- The capacities are byte budgets. The sums of the sizes of what is held, and the counters, are
-- plain numbers: 64 bits hold them.
pub record LocalKvStore : Type 0 where
  pub dram : KeyMap KvBlockKey Bytes
  pub ssd : KeyMap KvBlockKey ℕ
  pub meta : KeyMap KvBlockKey BlockMeta
  pub by_hash : StrMap (List KvBlockKey)
  pub dram_capacity : ℕ
  pub ssd_capacity : ℕ
  pub dram_bytes : ℕ
  pub ssd_bytes : ℕ
  pub clock : ℕ
  pub next_file : ℕ
  pub admits : ℕ
  pub hits : ℕ
  pub demotions : ℕ
  pub evictions : ℕ
  pub disk : Disk

-- How one write to the disk ends: all of it is durable, or the block file could not be written and
-- what is left of it stays, or the log could not be extended and holds nothing new.
pub data DiskWrite : Type 0 where
  written : DiskWrite
  file_failed : Option Bytes → DiskWrite
  log_failed : DiskWrite

unfoldable pub create : Disk → ℕ → ℕ → LocalKvStore
create disk dram_capacity ssd_capacity = record {
  dram = [];
  ssd = [];
  meta = [];
  by_hash = [];
  dram_capacity = dram_capacity;
  ssd_capacity = ssd_capacity;
  dram_bytes = 0;
  ssd_bytes = 0;
  clock = 0;
  next_file = 0;
  admits = 0;
  hits = 0;
  demotions = 0;
  evictions = 0;
  disk = record disk { wal = [] };
}

abbrev pub is_ssd : CacheTier → Bool
is_ssd local_ssd = true
is_ssd hbm = false
is_ssd remote_hbm = false
is_ssd cpu_dram = false
is_ssd object_store = false

abbrev pub is_dram : CacheTier → Bool
is_dram cpu_dram = true
is_dram hbm = false
is_dram remote_hbm = false
is_dram local_ssd = false
is_dram object_store = false
