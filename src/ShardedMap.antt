-- ===== src/ShardedMap.antt =====
-- crates/quillcache-store/src/sharded_map.rs: the shards of the master's object map. A shard's lock
-- is held for one call, so a call is a function of the shards; `DefaultHasher` is a parameter.
pub mod Routing
mod Examples
use quillcache.Prelude.{
  ℕ, zero, suc, ◌+◌, ◌-◌, ◌*◌, ◌/◌, ◌%◌, ◌^◌, ◌≤◌, ◌<◌, min, max, String, ◌≡◌, refl, sym, ap, ◌∙◌,
  subst, ◌≢◌, ◌↔◌, ◌⊎◌, inl, inr, Bool, true, false, not, ◌&&◌, ◌||◌, false≢true, Option, none,
  some, List, [], ◌∷◌, ◌++◌, map, arith, str_eq, eq_iff, ltb, leb, ◌==◌, if◌then◌else◌, ltb→lt,
  lt→ltb, leb→le, ==_iff, Bool-cases, Option-cases, length, get_elem?, set, get_or, take, drop,
  replicate, remove_at, keep, any, All, length-append, length-set, length-keep-le, length-map,
  length-take-le, take-append, drop-append, All-append, u64_mod, u64_max, u32_mod, add64, sub64,
  mul64, add32, sub32,
}
use quillcache.StrMap.{StrMap}

abbrev pub default_shards : ℕ
default_shards = 16

abbrev pub ShardedMap : Type 0 → Type 0
ShardedMap V = List (StrMap V)

unfoldable pub create : {V : Type 0} → ℕ → ShardedMap V
create num_shards = replicate (max num_shards 1) []

unfoldable pub shard_count : {V : Type 0} → ShardedMap V → ℕ
shard_count shards = length shards

-- All the shards in ascending order, as `with_all` locks them.
unfoldable pub with_all :
    {V R : Type 0} → (ShardedMap V → R × ShardedMap V) → ShardedMap V → R × ShardedMap V
with_all f shards = f shards

unfoldable pub size : {V : Type 0} → ShardedMap V → ℕ
size [] = 0
size (shard ∷ shards) = length shard + size shards

unfoldable pub is_empty : {V : Type 0} → ShardedMap V → Bool
unfolding size
is_empty shards = size shards == 0

module _ (hash : String → ℕ) where
  unfoldable pub shard_idx : {V : Type 0} → String → ShardedMap V → ℕ
  shard_idx key shards = hash key % length shards

  unfoldable pub with_shard :
      {V R : Type 0} → String → (StrMap V → R × StrMap V) → R → ShardedMap V → R × ShardedMap V
  unfolding shard_idx
  with_shard key f out shards = elim (get_elem? shards (shard_idx key shards)) [
    | none ↦ (out, shards)
    | some shard ↦ ((f shard).0, set shards (shard_idx key shards) (f shard).1)
  ]
