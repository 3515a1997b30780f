-- ===== src/MemoryIndex/Examples.antt =====
-- An index with two workers and two tenants.
use quillcache.Prelude.{String, ◌≡◌, refl, false, none, List, [], ◌∷◌, str_eq, keep, any}
use quillcache.Identity.{KvBlockKey, IdentityScope}
use quillcache.BlockStore.{hbm}
use quillcache.MemoryIndex.{CacheResidency, MemoryIndex}
use quillcache.MemoryIndex.Ops.{
  empty_index, of_others, locate, remove_block, clear_worker, residency_by_content_hash,
}
use quillcache.MemoryIndex.Valid.{IsValid}
use quillcache.MemoryIndex.Removed.{Removal, remove_block-Removal}
use quillcache.MemoryIndex.Reverse.{scan_by_content_hash, residency_by_content_hash-scan}
use quillcache.MemoryIndex.Runs.{Change, put_one, changes, changes-IsValid, clear_worker-Cleared}

abbrev block : String → String → KvBlockKey
block tenant hash = record {
  model_id = "m";
  tokenizer_id = "t";
  adapter_id = none;
  tenant_id = tenant;
  prefix_hash = "p";
  block_hash = hash;
  block_index = 0;
  token_count = 16;
}

abbrev scope_of : String → IdentityScope
scope_of tenant = record {
  model_id = "m";
  tokenizer_id = "t";
  adapter_id = none;
  tenant_id = tenant;
}

abbrev held_by : String → String → CacheResidency
held_by tenant worker = record {
  key = block tenant "h";
  worker_id = worker;
  tier = hbm;
  bytes = 64;
  last_access_ms = 0;
  ref_count = 0;
  pinned = false;
}

abbrev steps : List Change
steps = put_one (held_by "a" "w1") ∷ put_one (held_by "a" "w2") ∷ put_one (held_by "b" "w1") ∷ []

abbrev index : MemoryIndex
index = changes steps empty_index

changes-IsValid_example : IsValid (changes steps empty_index)
changes-IsValid_example = changes-IsValid steps

remove_block-Removal_example :
    Removal (scope_of "a") "w1" "h" index (remove_block (scope_of "a") "w1" "h" index)
remove_block-Removal_example =
    remove_block-Removal (scope_of "a") "w1" "h" index (changes-IsValid steps)

clear_worker-Cleared_example :
    ((k : KvBlockKey) → locate k (clear_worker "w1" index) ≡ keep (of_others "w1") (locate k index))
    × IsValid (clear_worker "w1" index)
clear_worker-Cleared_example = clear_worker-Cleared "w1" index (changes-IsValid steps)

residency_by_content_hash-scan_example :
    any (λ r. str_eq r.key.tenant_id "b") (residency_by_content_hash "h" index)
    ≡ any (λ r. str_eq r.key.tenant_id "b") (scan_by_content_hash "h" index)
residency_by_content_hash-scan_example =
    residency_by_content_hash-scan "h" (λ r. str_eq r.key.tenant_id "b") index
      (changes-IsValid steps)

-- The removal leaves the block of the other worker, and that of the other tenant.
left_over :
    (locate (block "a" "h") (remove_block (scope_of "a") "w1" "h" index).1 ≡ held_by "a" "w2" ∷ [])
    × (locate (block "b" "h") (remove_block (scope_of "a") "w1" "h" index).1
        ≡ held_by "b" "w1" ∷ [])
unfolding remove_block locate changes
left_over = (refl, refl)
