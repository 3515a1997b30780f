-- ===== src/DataPlane/Examples.antt =====
-- A worker with room for one block in memory.
use quillcache.Prelude.{
  ◌+◌, ◌<◌, String, ◌≡◌, refl, true, false, none, some, [], arith, length, u64_mod,
}
use quillcache.Identity.{KvBlockKey}
use quillcache.KeyMap.Laws.{Unique, total}
use quillcache.StrMap.{lookup}
use quillcache.BlockStore.{cpu_dram, local_ssd, block_key, written}
use quillcache.MemoryIndex.{CacheResidency}
use quillcache.Cost.{default_cost}
use quillcache.DataPlane.{StoreDataPlane}
use quillcache.DataPlane.Place.{cache_of, place}
use quillcache.DataPlane.Calls.{tier_of}
use quillcache.KeyMap.{find}
use quillcache.DataPlane.Kept.{Keyed, accounted, place-accounted}
use quillcache.DataPlane.Fits.{all_bytes, Fits, place-Fits}

abbrev block : String → KvBlockKey
block hash = record {
  model_id = "m";
  tokenizer_id = "t";
  adapter_id = none;
  tenant_id = "a";
  prefix_hash = "";
  block_hash = hash;
  block_index = 0;
  token_count = 16;
}

abbrev in_memory : String → CacheResidency
in_memory hash = record {
  key = block hash;
  worker_id = "w";
  tier = cpu_dram;
  bytes = 60;
  last_access_ms = 0;
  ref_count = 0;
  pinned = false;
}

abbrev new_plane : StoreDataPlane
new_plane = record {
  config = record {
    hbm_capacity_bytes = 100;
    cpu_dram_capacity_bytes = 100;
    local_ssd_capacity_bytes = 100;
  };
  workers = [];
  byte_pools = [];
  cost = default_cost;
  admits = 0;
  hits = 0;
  promotions = 0;
  demotions = 0;
  evictions = 0;
}

abbrev placed : String → StoreDataPlane → StoreDataPlane
placed hash plane = (place length (λ worker id. written) (λ k. true) (in_memory hash) plane).1

new_plane-Unique : Unique (cache_of "w" new_plane).entries
unfolding lookup
new_plane-Unique = tt

new_plane-small : all_bytes (cache_of "w" new_plane).entries + 60 < u64_mod
unfolding lookup total
new_plane-small = omega arith

one_block-small : all_bytes (cache_of "w" (placed "b0" new_plane)).entries + 60 < u64_mod
unfolding lookup total place
one_block-small = omega arith

one_block-Unique : Unique (cache_of "w" (placed "b0" new_plane)).entries
one_block-Unique =
    (place-Fits length (λ worker id. written) (λ k. true) (in_memory "b0") new_plane
      new_plane-Unique new_plane-small).0

place-Fits_example :
    let cache =
      cache_of "w"
        (place length
          (λ worker id. written)
          (λ k. true)
          (in_memory "b1")
          (placed "b0" new_plane)).1 in
    Unique cache.entries × Fits (placed "b0" new_plane).config cache.entries
place-Fits_example =
    place-Fits length (λ worker id. written) (λ k. true) (in_memory "b1") (placed "b0" new_plane)
      one_block-Unique one_block-small

new_plane-Keyed : Keyed (cache_of "w" new_plane).entries
unfolding lookup find
new_plane-Keyed = λ k e q. absurd (ground (arith, q))

place-accounted_example :
    let (update, plane') =
      place length (λ worker id. written) (λ k. true) (in_memory "b0") new_plane in
    accounted (block "b0") (cache_of "w" plane').entries update.removed ≡ true
place-accounted_example =
    place-accounted length (λ worker id. written) (λ k. true) (in_memory "b0") new_plane
      (block "b0") new_plane-Unique new_plane-Keyed refl

-- The first block has moved to a file, and a third one will push it out.
moved_down :
    (tier_of "w" (block "b0") (placed "b1" (placed "b0" new_plane)) ≡ some local_ssd)
    × (tier_of "w" (block "b0") (placed "b2" (placed "b1" (placed "b0" new_plane))) ≡ none)
unfolding tier_of place
moved_down = (refl, refl)
