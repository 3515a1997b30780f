-- ===== src/Conductor/Examples.antt =====
-- A prefix table with two tenants.
use quillcache.Prelude.{ℕ, String, ◌≡◌, refl, none, some, [], ◌∷◌}
use quillcache.StrMap.{lookup}
use quillcache.Conductor.{
  table_of, context_eq, ModelContext, PrefixCacheTable, handle, block_removed, query_overlap,
}
use quillcache.Conductor.Cached.{cached, after, IsValid, handle-cached}
use quillcache.Conductor.Overlap.{Longest, Reported, query_overlap-Longest}

abbrev context : String → ModelContext
context tenant = record {
  tenant_id = tenant;
  model_id = "m";
  tokenizer_id = "t";
  lora_id = none;
  block_size = 16;
  salt = none;
}

abbrev table : PrefixCacheTable
table = record {
  tables =
      (context "a", ("p0", "w1" ∷ "w2" ∷ []) ∷ ("p1", "w1" ∷ []) ∷ [])
      ∷ (context "b", ("p0", "w2" ∷ []) ∷ [])
      ∷ [];
}

table-IsValid : IsValid table
unfolding table_of context_eq lookup
table-IsValid = (refl, (refl, (refl, tt)), (refl, (refl, tt), tt))

handle-cached_example :
    IsValid (handle (block_removed (context "a") "p0" "w2") table)
    × ((d : ModelContext) (q j : String)
        → cached (handle (block_removed (context "a") "p0" "w2") table) d q j
          ≡ after (block_removed (context "a") "p0" "w2") d q j (cached table d q j))
handle-cached_example = handle-cached (block_removed (context "a") "p0" "w2") table table-IsValid

query_overlap-Longest_example :
    (n : ℕ) × Longest (λ p. cached table (context "a") p "w1") ("p0" ∷ "p1" ∷ "p2" ∷ []) n
    × Reported (lookup "w1" (query_overlap (context "a") ("p0" ∷ "p1" ∷ "p2" ∷ []) table)) n
query_overlap-Longest_example =
    query_overlap-Longest table (context "a") ("p0" ∷ "p1" ∷ "p2" ∷ []) "w1"

two_blocks : lookup "w1" (query_overlap (context "a") ("p0" ∷ "p1" ∷ "p2" ∷ []) table) ≡ some 2
unfolding query_overlap lookup
two_blocks = refl
