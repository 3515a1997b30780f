-- ===== src/ShardedMap/Examples.antt =====
-- Two shards and an insert.
use quillcache.Prelude.{
  ℕ, ◌%◌, String, ◌≡◌, refl, Bool, true, false, some, [], ◌∷◌, arith, str_eq, eq_iff, ◌==◌,
  if◌then◌else◌, length, get_elem?,
}
use quillcache.StrMap.{StrMap, lookup, insert}
use quillcache.StrMap.Laws.{lookup-insert}
use quillcache.ShardedMap.{ShardedMap, with_shard, size}
use quillcache.ShardedMap.Routing.{get, Local, with_shard-Routed}

abbrev hash : String → ℕ
hash key = if str_eq key "a" then 7 else 4

abbrev shards : ShardedMap ℕ
shards = (("b", 1) ∷ []) ∷ [] ∷ []

abbrev put : StrMap ℕ → Bool × StrMap ℕ
put shard = (true, insert "a" 5 shard)

put-Local : Local "a" put
put-Local j shard n = ground (arith, lookup-insert "a" j 5 shard, eq_iff "a" j)

with_shard-Routed_example :
    (shard : StrMap ℕ) × (get_elem? shards (hash "a" % length shards) ≡ some shard)
    × ((with_shard hash "a" put false shards).0 ≡ (put shard).0)
    × (length (with_shard hash "a" put false shards).1 ≡ length shards)
    × ((i : ℕ)
        → get_elem? (with_shard hash "a" put false shards).1 i
          ≡ (if (hash "a" % length shards) == i then some (put shard).1 else get_elem? shards i))
    × (Local "a" put
        → (j : String)
        → get hash j (with_shard hash "a" put false shards).1
          ≡ (if str_eq "a" j then lookup "a" (put shard).1 else get hash j shards))
with_shard-Routed_example = with_shard-Routed hash "a" put false shards (omega arith)

two_entries : size (with_shard hash "a" put false shards).1 ≡ 2
unfolding size with_shard insert
two_entries = refl
