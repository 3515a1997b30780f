-- ===== src/MemoryIndex/Forget.antt =====
-- The emptied keys leave the reverse indexes of crates/quillcache-core/src/lib.rs:
-- MemoryIndex::forget_content_hash, and its loop in clear_worker.
use quillcache.Prelude.{
  String, ◌≡◌, refl, ap, ◌∙◌, Bool, true, false, not, ◌&&◌, List, [], ◌∷◌, arith, str_eq,
  if◌then◌else◌,
}
use quillcache.Identity.{KvBlockKey}
use quillcache.KeyMap.{KeyMap}
use quillcache.BlockStore.{block_key, block_key_eq, block_key_eq_iff}
use quillcache.MemoryIndex.{text_key, ScopedHash, scoped_hash_key}
use quillcache.MemoryIndex.Buckets.{has_key, lists, discard_keys, lists-discard_keys}
use quillcache.MemoryIndex.Ops.{forget_content_hashes, scoped, forget_scoped}

-- What is no longer listed after the emptied keys are forgotten.
forget_round :
    (b h c c' d : Bool)
    → (b ≡ true → c ≡ c')
    → ((d && not (c && (if b then true else false))) && not (h && c'))
      ≡ (d && not ((if b then true else h) && c'))
forget_round true h c c' d e = rw (e refl) (ground arith)
forget_round false h c c' d e = ground arith

pub forget_content_hashes-lists :
    (hash : String) (k : KvBlockKey) (keys : List KvBlockKey) (m : KeyMap String (List KvBlockKey))
    → lists hash k (forget_content_hashes keys m)
      ≡ (lists hash k m && not (has_key k keys && str_eq k.block_hash hash))
unfolding forget_content_hashes
forget_content_hashes-lists hash k [] m = ground arith
forget_content_hashes-lists hash k (key ∷ keys) m =
    forget_content_hashes-lists hash k keys (discard_keys key.block_hash (key ∷ []) m)
    ∙ ap (λ x. x && not (has_key k keys && str_eq k.block_hash hash))
        (lists-discard_keys hash key.block_hash k (key ∷ []) m)
    ∙ forget_round (block_key_eq key k) (has_key k keys) (str_eq key.block_hash hash)
        (str_eq k.block_hash hash) (lists hash k m)
        (λ y. ap (λ x. str_eq x.block_hash hash) ((block_key_eq_iff key k).0 y))

pub forget_scoped-lists :
    (j : ScopedHash) (k : KvBlockKey) (keys : List KvBlockKey)
    (m : KeyMap ScopedHash (List KvBlockKey))
    → lists j k (forget_scoped keys m)
      ≡ (lists j k m && not (has_key k keys && scoped_hash_key.beq (scoped k) j))
unfolding forget_scoped
forget_scoped-lists j k [] m = ground arith
forget_scoped-lists j k (key ∷ keys) m =
    forget_scoped-lists j k keys (discard_keys (scoped key) (key ∷ []) m)
    ∙ ap (λ x. x && not (has_key k keys && scoped_hash_key.beq (scoped k) j))
        (lists-discard_keys j (scoped key) k (key ∷ []) m)
    ∙ forget_round (block_key_eq key k) (has_key k keys) (scoped_hash_key.beq (scoped key) j)
        (scoped_hash_key.beq (scoped k) j) (lists j k m)
        (λ y. ap (λ x. scoped_hash_key.beq (scoped x) j) ((block_key_eq_iff key k).0 y))
