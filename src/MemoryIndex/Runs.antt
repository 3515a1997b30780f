-- ===== src/MemoryIndex/Runs.antt =====
-- Runs of the index of crates/quillcache-core/src/lib.rs: every sequence of operations of
-- IndexBackend from an empty index.
use quillcache.Prelude.{String, ◌≡◌, refl, List, [], ◌∷◌, keep}
use quillcache.Identity.{KvBlockKey, IdentityScope}
use quillcache.KeyMap.{find}
use quillcache.BlockStore.{block_key}
use quillcache.MemoryIndex.{CacheResidency, MemoryIndex}
use quillcache.MemoryIndex.Ops.{
  empty_index, of_others, locate, put_residency, remove_block, clear_worker, clear,
}
use quillcache.MemoryIndex.Valid.{IsValid, empty_index-IsValid, put_residency-IsValid}
use quillcache.MemoryIndex.Located.{clear_worker-IsValid, clear_worker-locate}
use quillcache.MemoryIndex.Removed.{remove_block-Removal}

pub data Change : Type 0 where
  put_one : CacheResidency → Change
  remove_one : IdentityScope → String → String → Change
  clear_one : String → Change
  clear_all : Change

unfoldable pub change : Change → MemoryIndex → MemoryIndex
unfolding put_residency remove_block clear_worker clear
change (put_one r) index = put_residency r index
change (remove_one scope worker hash) index = (remove_block scope worker hash index).1
change (clear_one worker) index = clear_worker worker index
change clear_all index = clear index

unfoldable pub changes : List Change → MemoryIndex → MemoryIndex
unfolding change
changes [] index = index
changes (c ∷ cs) index = changes cs (change c index)

clear-IsValid : (index : MemoryIndex) → IsValid (clear index)
unfolding clear find locate
clear-IsValid index = record {
  unique = tt;
  keyed = λ k. tt;
  scopes = λ j k. refl;
  hashes = λ h k. refl;
}

change-IsValid : (c : Change) (index : MemoryIndex) → IsValid index → IsValid (change c index)
unfolding change
change-IsValid (put_one r) index v = put_residency-IsValid r index v
change-IsValid (remove_one scope worker hash) index v =
    (remove_block-Removal scope worker hash index v).2
change-IsValid (clear_one worker) index v = clear_worker-IsValid worker index v
change-IsValid clear_all index v = clear-IsValid index

kept-IsValid : (cs : List Change) (index : MemoryIndex) → IsValid index → IsValid (changes cs index)
unfolding changes
kept-IsValid [] index v = v
kept-IsValid (c ∷ cs) index v = kept-IsValid cs (change c index) (change-IsValid c index v)

-- After any sequence of puts, removals and clears of a new index, each key has one entry, what stands
-- under a key carries it, and each of the two reverse indexes lists exactly the keys that have an
-- entry, under their own scope and hash.
pub changes-IsValid : (cs : List Change) → IsValid (changes cs empty_index)
changes-IsValid cs = kept-IsValid cs empty_index empty_index-IsValid

-- On a valid index, clearing a worker takes what the worker holds from every key and nothing else,
-- and leaves both reverse indexes exact.
pub clear_worker-Cleared :
    (worker : String) (index : MemoryIndex)
    → IsValid index
    → ((k : KvBlockKey)
        → locate k (clear_worker worker index) ≡ keep (of_others worker) (locate k index))
      × IsValid (clear_worker worker index)
clear_worker-Cleared worker index v =
    (clear_worker-locate worker index v, clear_worker-IsValid worker index v)
