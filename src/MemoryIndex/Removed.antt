-- ===== src/MemoryIndex/Removed.antt =====
-- MemoryIndex::remove_block of crates/quillcache-core/src/lib.rs, which visits only the keys that its
-- reverse index lists, against a scan of every key.
use quillcache.Prelude.{
  ℕ, ◌+◌, String, ◌≡◌, sym, ap, ◌∙◌, subst, inl, inr, false, ◌&&◌, none, List, arith, str_eq,
  if◌then◌else◌, Bool-cases, Option-cases, keep, All,
}
use quillcache.Identity.{KvBlockKey, IdentityScope, scope_matches}
use quillcache.KeyMap.{find}
use quillcache.BlockStore.{block_key}
use quillcache.MemoryIndex.{CacheResidency, scoped_hash_key, scoped_hash_eq, MemoryIndex}
use quillcache.MemoryIndex.Buckets.{bucket_of, has_key}
use quillcache.MemoryIndex.Ops.{
  scoped, of_others, locate, evict_each, remove_block, residency_count,
}
use quillcache.MemoryIndex.Loops.{is_some, left_of, evict_each-Unique, evict_each-removed}
use quillcache.MemoryIndex.Valid.{IsValid, All-keep, scope_matches-scoped}
use quillcache.MemoryIndex.Located.{left_where, after-locate, after-scopes, after-hashes}

-- What a removal by scan would leave, how many it counts, and the reverse indexes.
abbrev pub Removal : IdentityScope → String → String → MemoryIndex → ℕ × MemoryIndex → Type 0
Removal scope worker hash index (removed, index') =
    ((k : KvBlockKey)
      → locate k index' ≡ (
          if scope_matches scope k && str_eq k.block_hash hash
          then keep (of_others worker) (locate k index)
          else locate k index))
    × (residency_count index' + removed ≡ residency_count index)
    × IsValid index'

module _ (scope : IdentityScope) (worker hash : String) (index : MemoryIndex)
    (v : IsValid index) where
  by_scan :
      (k : KvBlockKey) (l : List CacheResidency)
      → l ≡ (
          if scoped_hash_eq (scoped k) (scope, hash)
          then keep (of_others worker) (locate k index)
          else locate k index)
      → l ≡ (
          if scope_matches scope k && str_eq k.block_hash hash
          then keep (of_others worker) (locate k index)
          else locate k index)
  by_scan k l e =
      e
      ∙ ap (λ b. if b then keep (of_others worker) (locate k index) else locate k index)
          (sym (scope_matches-scoped scope hash k))

  nothing_listed :
      find (scope, hash) index.by_hash ≡ none
      → (k : KvBlockKey)
      → locate k index ≡ (
          if scoped_hash_eq (scoped k) (scope, hash)
          then keep (of_others worker) (locate k index)
          else locate k index)
  unfolding locate
  nothing_listed o k =
      let c = scoped_hash_eq (scoped k) (scope, hash) in
      let none_held : (is_some (find k index.entries) && c) ≡ false =
        sym (v.scopes (scope, hash) k) ∙ ap (λ x. has_key k (bucket_of x)) o in
      sym (
        ap
          (λ b.
            bucket_of (if b then left_of worker (find k index.entries) else find k index.entries))
          none_held)
      ∙ left_where worker (find k index.entries) c

  -- From a valid index, a removal takes from every key of the scope with the hash exactly what the
  -- worker held there, changes nothing else, answers how many residencies went, and leaves both
  -- reverse indexes exact.
  pub remove_block-Removal : Removal scope worker hash index (remove_block scope worker hash index)
  unfolding remove_block residency_count locate
  remove_block-Removal = elim (Option-cases (find (scope, hash) index.by_hash)) [
    | inl o ↦
        rw (o, remove_block) (λ k. by_scan k (locate k index) (nothing_listed o k), omega arith, v)
    | inr (candidates, o) ↦
        let result = λ (k : KvBlockKey).
          by_scan k (bucket_of (find k (evict_each worker candidates index.entries).0))
            (after-locate worker index v scope hash candidates o k) in
        rw (o, remove_block)
          (
            result,
            evict_each-removed worker candidates index.entries v.unique,
            record {
              unique = evict_each-Unique worker candidates index.entries v.unique;
              keyed = λ k. subst (All (λ r. r.key ≡ k)) (sym (result k)) (keyed_left k);
              scopes = λ j k. after-scopes worker index v scope hash candidates o k j;
              hashes = λ h k. after-hashes worker index v scope hash candidates o k h;
            },
          )
  ]
    where
      keyed_left :
          (k : KvBlockKey)
          → All
              (λ r. r.key ≡ k)
              (if scope_matches scope k && str_eq k.block_hash hash
                then keep (of_others worker) (locate k index)
                else locate k index)
      keyed_left k = elim (Bool-cases (scope_matches scope k && str_eq k.block_hash hash)) [
        | inl y ↦ rw y (All-keep (λ r. r.key ≡ k) (of_others worker) (locate k index) (v.keyed k))
        | inr n ↦ rw n (v.keyed k)
      ]
