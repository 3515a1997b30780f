-- ===== src/MemoryIndex/Ops.antt =====
-- The operations of crates/quillcache-core/src/lib.rs: impl IndexBackend for MemoryIndex.
use quillcache.Prelude.{
  ℕ, ◌+◌, ◌-◌, String, Bool, not, ◌&&◌, none, some, List, [], ◌∷◌, ◌++◌, str_eq, length, keep,
}
use quillcache.Identity.{KvBlockKey, IdentityScope, from_key, scope_matches}
use quillcache.KeyMap.{KeyMap, find, put, delete}
use quillcache.KeyMap.Laws.{total}
use quillcache.BlockStore.{block_key}
use quillcache.MemoryIndex.{
  CacheResidency, tier_eq, text_key, ScopedHash, scoped_hash_key, MemoryIndex,
}
use quillcache.MemoryIndex.Buckets.{bucket_of, add_key, discard_keys}

abbrev pub empty_index : MemoryIndex
empty_index = record { entries = []; by_hash = []; by_content_hash = []; puts = 0; removes = 0 }

abbrev pub scoped : KvBlockKey → ScopedHash
scoped key = (from_key key, key.block_hash)

-- Another residency than that of a worker in a tier, and one of another worker.
abbrev pub elsewhere : CacheResidency → CacheResidency → Bool
elsewhere r entry = not (str_eq entry.worker_id r.worker_id && tier_eq entry.tier r.tier)

abbrev pub of_others : String → CacheResidency → Bool
of_others worker entry = not (str_eq entry.worker_id worker)

unfoldable pub locate : KvBlockKey → MemoryIndex → List CacheResidency
unfolding find
locate key index = bucket_of (find key index.entries)

unfoldable pub put_residency : CacheResidency → MemoryIndex → MemoryIndex
unfolding find put add_key from_key
put_residency r index = record {
  entries =
      put r.key (keep (elsewhere r) (bucket_of (find r.key index.entries)) ++ r ∷ []) index.entries;
  by_hash = add_key (scoped r.key) r.key index.by_hash;
  by_content_hash = add_key r.key.block_hash r.key index.by_content_hash;
  puts = index.puts + 1;
  removes = index.removes;
}

-- The residencies that are left under a key: without any, the key goes.
abbrev pub put_left :
    KvBlockKey
    → List CacheResidency
    → KeyMap KvBlockKey (List CacheResidency)
    → KeyMap KvBlockKey (List CacheResidency)
put_left key [] entries = delete key entries
put_left key (r ∷ rs) entries = put key (r ∷ rs) entries

abbrev pub note_empty : KvBlockKey → List CacheResidency → List KvBlockKey → List KvBlockKey
note_empty key [] emptied = key ∷ emptied
note_empty key (r ∷ rs) emptied = emptied

-- The loop over the candidates: the entries, how many residencies went, and the emptied keys.
unfoldable pub evict_each :
    String
    → List KvBlockKey
    → KeyMap KvBlockKey (List CacheResidency)
    → KeyMap KvBlockKey (List CacheResidency) × ℕ × List KvBlockKey
unfolding find put delete
evict_each worker [] entries = (entries, 0, [])
evict_each worker (key ∷ keys) entries = elim (find key entries) [
  | none ↦ evict_each worker keys entries
  | some rs ↦
      let left = keep (of_others worker) rs in
      let (entries', removed, emptied) = evict_each worker keys (put_left key left entries) in
      (entries', length rs - length left + removed, note_empty key left emptied)
]

-- `forget_content_hash` of each key.
unfoldable pub forget_content_hashes :
    List KvBlockKey → KeyMap String (List KvBlockKey) → KeyMap String (List KvBlockKey)
unfolding discard_keys
forget_content_hashes [] m = m
forget_content_hashes (key ∷ keys) m =
    forget_content_hashes keys (discard_keys key.block_hash (key ∷ []) m)

abbrev pub discard_emptied :
    ScopedHash
    → List KvBlockKey
    → KeyMap ScopedHash (List KvBlockKey)
    → KeyMap ScopedHash (List KvBlockKey)
discard_emptied j [] m = m
discard_emptied j (k ∷ ks) m = discard_keys j (k ∷ ks) m

unfoldable pub remove_block : IdentityScope → String → String → MemoryIndex → ℕ × MemoryIndex
unfolding find evict_each forget_content_hashes discard_keys
remove_block scope worker hash index = elim (find (scope, hash) index.by_hash) [
  | none ↦ (0, index)
  | some candidates ↦
      let (entries', removed, emptied) = evict_each worker candidates index.entries in
      (
        removed,
        record {
          entries = entries';
          by_hash = discard_emptied (scope, hash) emptied index.by_hash;
          by_content_hash = forget_content_hashes emptied index.by_content_hash;
          puts = index.puts;
          removes = index.removes + removed;
        },
      )
]

-- `retain` of the entries, with the keys that it empties.
abbrev pub keep_entry :
    KvBlockKey
    → List CacheResidency
    → KeyMap KvBlockKey (List CacheResidency) × List KvBlockKey
    → KeyMap KvBlockKey (List CacheResidency) × List KvBlockKey
keep_entry key [] (entries, emptied) = (entries, key ∷ emptied)
keep_entry key (r ∷ left) (entries, emptied) = ((key, r ∷ left) ∷ entries, emptied)

unfoldable pub retain_entries :
    String
    → KeyMap KvBlockKey (List CacheResidency)
    → KeyMap KvBlockKey (List CacheResidency) × List KvBlockKey
retain_entries worker [] = ([], [])
retain_entries worker ((key, rs) ∷ entries) =
    keep_entry key (keep (of_others worker) rs) (retain_entries worker entries)

unfoldable pub forget_scoped :
    List KvBlockKey → KeyMap ScopedHash (List KvBlockKey) → KeyMap ScopedHash (List KvBlockKey)
unfolding discard_keys from_key
forget_scoped [] m = m
forget_scoped (key ∷ keys) m = forget_scoped keys (discard_keys (scoped key) (key ∷ []) m)

unfoldable pub clear_worker : String → MemoryIndex → MemoryIndex
unfolding retain_entries forget_scoped forget_content_hashes
clear_worker worker index =
    let (entries', emptied) = retain_entries worker index.entries in
    record index {
      entries = entries';
      by_hash = forget_scoped emptied index.by_hash;
      by_content_hash = forget_content_hashes emptied index.by_content_hash;
    }

unfoldable pub clear : MemoryIndex → MemoryIndex
clear index = record index { entries = []; by_hash = []; by_content_hash = [] }

unfoldable pub concat : KeyMap KvBlockKey (List CacheResidency) → List CacheResidency
concat [] = []
concat ((key, rs) ∷ entries) = rs ++ concat entries

unfoldable pub snapshot : MemoryIndex → List CacheResidency
unfolding concat
snapshot index = concat index.entries

unfoldable pub prefix_scan : IdentityScope → String → MemoryIndex → List CacheResidency
unfolding concat scope_matches
prefix_scan scope prefix index =
    concat (keep (λ e. scope_matches scope e.0 && str_eq e.0.prefix_hash prefix) index.entries)

abbrev pub entries_of :
    List KvBlockKey → KeyMap KvBlockKey (List CacheResidency) → List CacheResidency
entries_of [] entries = []
entries_of (key ∷ keys) entries = bucket_of (find key entries) ++ entries_of keys entries

unfoldable pub residency_by_content_hash : String → MemoryIndex → List CacheResidency
unfolding find
residency_by_content_hash hash index = elim (find hash index.by_content_hash) [
  | none ↦ []
  | some keys ↦ entries_of keys index.entries
]

-- `len`.
unfoldable pub residency_count : MemoryIndex → ℕ
unfolding total
residency_count index = total length index.entries
