-- ===== src/MemoryIndex.antt =====
-- crates/quillcache-core/src/lib.rs: MemoryIndex, the index from the identity of a block to the workers
-- and tiers that hold it, with its two reverse indexes.
pub mod Buckets
pub mod Ops
pub mod Loops
pub mod Forget
pub mod Retain
pub mod Valid
pub mod Located
pub mod Removed
pub mod Reverse
pub mod Runs
mod Examples
use quillcache.Prelude.{
  ℕ, zero, suc, ◌+◌, ◌-◌, ◌*◌, ◌/◌, ◌%◌, ◌^◌, ◌≤◌, ◌<◌, min, max, String, ◌≡◌, refl, sym, ap, ◌∙◌,
  subst, ◌≢◌, ◌↔◌, ◌⊎◌, inl, inr, Bool, true, false, not, ◌&&◌, ◌||◌, false≢true, Option, none,
  some, List, [], ◌∷◌, ◌++◌, map, arith, str_eq, eq_iff, ltb, leb, ◌==◌, if◌then◌else◌, ltb→lt,
  lt→ltb, leb→le, ==_iff, Bool-cases, Option-cases, length, get_elem?, set, get_or, take, drop,
  replicate, remove_at, keep, any, All, length-append, length-set, length-keep-le, length-map,
  length-take-le, take-append, drop-append, All-append, u64_mod, u64_max, u32_mod, add64, sub64,
  mul64, add32, sub32,
}
use quillcache.Identity.{KvBlockKey, IdentityScope, opt_eq}
use quillcache.Identity.Guard.{opt_eq_iff}
use quillcache.KeyMap.{KeyEq, KeyMap}
use quillcache.BlockStore.{CacheTier, hbm, remote_hbm, cpu_dram, local_ssd, object_store}

pub record CacheResidency : Type 0 where
  pub key : KvBlockKey
  pub worker_id : String
  pub tier : CacheTier
  pub bytes : ℕ
  pub last_access_ms : ℕ
  pub ref_count : ℕ
  pub pinned : Bool

-- The place of a tier in the declaration of `CacheTier`, by which its derived `==` compares.
abbrev pub tier_index : CacheTier → ℕ
tier_index hbm = 0
tier_index remote_hbm = 1
tier_index cpu_dram = 2
tier_index local_ssd = 3
tier_index object_store = 4

abbrev pub tier_eq : CacheTier → CacheTier → Bool
tier_eq a b = tier_index a == tier_index b

instance abbrev pub text_key : KeyEq String
text_key = record { beq = str_eq; beq_iff = eq_iff }

-- The pair of a scope and a content hash, the key of the first reverse index.
abbrev pub ScopedHash : Type 0
ScopedHash = IdentityScope × String

abbrev pub scoped_hash_eq : ScopedHash → ScopedHash → Bool
scoped_hash_eq (s, a) (t, b) =
    str_eq s.model_id t.model_id
    && str_eq s.tokenizer_id t.tokenizer_id
    && opt_eq s.adapter_id t.adapter_id
    && str_eq s.tenant_id t.tenant_id
    && str_eq a b

pub scoped_hash_eq_iff : (a b : ScopedHash) → (scoped_hash_eq a b ≡ true) ↔ (a ≡ b)
scoped_hash_eq_iff (s, a) (t, b) = ground (
  arith,
  eq_iff s.model_id t.model_id,
  eq_iff s.tokenizer_id t.tokenizer_id,
  opt_eq_iff s.adapter_id t.adapter_id,
  eq_iff s.tenant_id t.tenant_id,
  eq_iff a b,
)

instance abbrev pub scoped_hash_key : KeyEq ScopedHash
scoped_hash_key = record { beq = scoped_hash_eq; beq_iff = scoped_hash_eq_iff }

pub record MemoryIndex : Type 0 where
  pub entries : KeyMap KvBlockKey (List CacheResidency)
  pub by_hash : KeyMap ScopedHash (List KvBlockKey)
  pub by_content_hash : KeyMap String (List KvBlockKey)
  pub puts : ℕ
  pub removes : ℕ
