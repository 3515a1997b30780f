-- ===== src/MemoryIndex/Located.antt =====
-- Removal from the index of crates/quillcache-core/src/lib.rs: MemoryIndex::remove_block and
-- clear_worker against a scan of every key.
use quillcache.Prelude.{
  String, ◌≡◌, refl, sym, ap, ◌∙◌, subst, inl, inr, Bool, true, false, not, ◌&&◌, Option, none,
  some, List, [], ◌∷◌, arith, str_eq, if◌then◌else◌, Bool-cases, keep, All,
}
use quillcache.Identity.{KvBlockKey, IdentityScope}
use quillcache.KeyMap.{KeyMap, find}
use quillcache.BlockStore.{block_key}
use quillcache.MemoryIndex.{
  CacheResidency, text_key, ScopedHash, scoped_hash_key, scoped_hash_eq, scoped_hash_eq_iff,
  MemoryIndex,
}
use quillcache.MemoryIndex.Buckets.{bucket_of, has_key, lists, lists-discard_keys}
use quillcache.MemoryIndex.Ops.{
  scoped, forget_scoped, retain_entries, of_others, locate, evict_each, discard_emptied,
  forget_content_hashes, clear_worker,
}
use quillcache.MemoryIndex.Loops.{
  Entries, is_some, some_left, left_of, evict_each-find, evict_each-emptied,
}
use quillcache.MemoryIndex.Forget.{forget_content_hashes-lists, forget_scoped-lists}
use quillcache.MemoryIndex.Retain.{
  retain_entries-find, retain_entries-emptied, retain_entries-Unique,
}
use quillcache.MemoryIndex.Valid.{IsValid, All-keep}

bucket_of-left_of :
    (w : String) (o : Option (List CacheResidency))
    → bucket_of (left_of w o) ≡ keep (of_others w) (bucket_of o)
bucket_of-left_of w none = refl
bucket_of-left_of w (some rs) = unfolded (keep (of_others w) rs)
  where
    unfolded : (l : List CacheResidency) → bucket_of (some_left l) ≡ l
    unfolded [] = refl
    unfolded (r ∷ l) = refl

-- What is left under a key that is concerned by the removal, held or not.
pub left_where :
    (w : String) (o : Option (List CacheResidency)) (c : Bool)
    → bucket_of (if is_some o && c then left_of w o else o)
      ≡ (if c then keep (of_others w) (bucket_of o) else bucket_of o)
left_where w none true = refl
left_where w none false = refl
left_where w (some rs) true = bucket_of-left_of w (some rs)
left_where w (some rs) false = refl

left_of-none :
    (w : String) (o : Option (List CacheResidency))
    → is_some o ≡ false
    → is_some (left_of w o) ≡ false
left_of-none w none e = refl
left_of-none w (some rs) e = absurd (ground (arith, e))

no_bucket : {A : Type 0} (o : Option (List A)) → is_some o ≡ false → bucket_of o ≡ []
no_bucket none e = refl
no_bucket (some l) e = absurd (ground (arith, e))

discard_emptied-lists :
    (i j : ScopedHash) (k : KvBlockKey) (emptied : List KvBlockKey)
    (m : KeyMap ScopedHash (List KvBlockKey))
    → lists i k (discard_emptied j emptied m)
      ≡ (lists i k m && not (scoped_hash_eq j i && has_key k emptied))
discard_emptied-lists i j k [] m = ground arith
discard_emptied-lists i j k (x ∷ xs) m = lists-discard_keys i j k (x ∷ xs) m

-- The reverse indexes: `hd` says that the key had an entry, `lf` that it has one afterwards if it is
-- visited, `c` that it is under the hash of the removal and `q` that it is under another.
scoped_after :
    (hd q c s lf : Bool)
    → (c ≡ true → s ≡ q)
    → ((hd && q) && not (s && ((hd && c) && hd && not lf))) ≡ ((if hd && c then lf else hd) && q)
scoped_after true q true s lf e = rw (e refl) (ground arith)
scoped_after true q false s lf e = ground arith
scoped_after false q c s lf e = ground arith

hashes_after :
    (hd q c lf : Bool)
    → ((hd && q) && not (((hd && c) && hd && not lf) && q)) ≡ ((if hd && c then lf else hd) && q)
hashes_after true q true lf = ground arith
hashes_after true q false lf = ground arith
hashes_after false q c lf = ground arith

cleared :
    (hd q lf : Bool)
    → (hd ≡ false → lf ≡ false)
    → ((hd && q) && not ((hd && not lf) && q)) ≡ (lf && q)
cleared true q lf e = ground arith
cleared false q lf e = rw (e refl) refl

module _ (worker : String) (index : MemoryIndex) (v : IsValid index) where
  -- Everything of the worker goes, under every key.
  pub clear_worker-locate :
      (k : KvBlockKey)
      → locate k (clear_worker worker index) ≡ keep (of_others worker) (locate k index)
  unfolding clear_worker locate
  clear_worker-locate k =
      ap bucket_of (retain_entries-find worker k index.entries v.unique)
      ∙ bucket_of-left_of worker (find k index.entries)

  module _ (k : KvBlockKey) where
    -- Whether the key has an entry, before and after.
    abbrev pub held : Bool
    held = is_some (find k index.entries)

    abbrev pub left : Bool
    left = is_some (left_of worker (find k index.entries))

    abbrev emptied_by_clear : List KvBlockKey
    emptied_by_clear = (retain_entries worker index.entries).1

    clear_worker-scopes :
        (j : ScopedHash)
        → lists j k (forget_scoped emptied_by_clear index.by_hash) ≡ (
            is_some (find k (retain_entries worker index.entries).0) && scoped_hash_eq (scoped k) j)
    clear_worker-scopes j =
        let q = scoped_hash_eq (scoped k) j in
        forget_scoped-lists j k emptied_by_clear index.by_hash
        ∙ ap (λ x. x && not (has_key k emptied_by_clear && q)) (v.scopes j k)
        ∙ ap (λ x. (held && q) && not (x && q))
            (retain_entries-emptied worker k index.entries v.unique)
        ∙ cleared held q left (left_of-none worker (find k index.entries))
        ∙ ap (λ x. is_some x && q) (sym (retain_entries-find worker k index.entries v.unique))

    clear_worker-hashes :
        (hash : String)
        → lists hash k (forget_content_hashes emptied_by_clear index.by_content_hash)
          ≡ (is_some (find k (retain_entries worker index.entries).0) && str_eq k.block_hash hash)
    clear_worker-hashes hash =
        let q = str_eq k.block_hash hash in
        forget_content_hashes-lists hash k emptied_by_clear index.by_content_hash
        ∙ ap (λ x. x && not (has_key k emptied_by_clear && q)) (v.hashes hash k)
        ∙ ap (λ x. (held && q) && not (x && q))
            (retain_entries-emptied worker k index.entries v.unique)
        ∙ cleared held q left (left_of-none worker (find k index.entries))
        ∙ ap (λ x. is_some x && q) (sym (retain_entries-find worker k index.entries v.unique))

  pub clear_worker-IsValid : IsValid (clear_worker worker index)
  unfolding clear_worker
  clear_worker-IsValid = record {
    unique = retain_entries-Unique worker index.entries v.unique;
    keyed = λ k.
        subst (All (λ r. r.key ≡ k)) (sym (clear_worker-locate k))
          (All-keep (λ r. r.key ≡ k) (of_others worker) (locate k index) (v.keyed k));
    scopes = λ j k. clear_worker-scopes k j;
    hashes = λ h k. clear_worker-hashes k h;
  }

  module _ (scope : IdentityScope) (hash : String) (candidates : List KvBlockKey)
      (o : find (scope, hash) index.by_hash ≡ some candidates) where
    abbrev pub after : Entries
    after = (evict_each worker candidates index.entries).0

    abbrev pub emptied : List KvBlockKey
    emptied = (evict_each worker candidates index.entries).2

    module _ (k : KvBlockKey) where
      abbrev pub concerned : Bool
      concerned = scoped_hash_eq (scoped k) (scope, hash)

      -- The candidates are the keys of the scope and the hash that have an entry.
      is_candidate : has_key k candidates ≡ (held k && concerned)
      is_candidate = sym (ap (λ x. has_key k (bucket_of x)) o) ∙ v.scopes (scope, hash) k

      after-find : find k after ≡ (
          if held k && concerned
          then left_of worker (find k index.entries)
          else find k index.entries)
      after-find =
          evict_each-find worker k candidates index.entries
          ∙ ap (λ b. if b then left_of worker (find k index.entries) else find k index.entries)
              is_candidate

      after-held : is_some (find k after) ≡ (if held k && concerned then left k else held k)
      after-held =
          ap is_some after-find
          ∙ elim (Bool-cases (held k && concerned)) [ inl y ↦ rw y refl | inr n ↦ rw n refl ]

      emptied-key : has_key k emptied ≡ ((held k && concerned) && held k && not (left k))
      emptied-key =
          evict_each-emptied worker k candidates index.entries
          ∙ ap (λ b. b && held k && not (left k)) is_candidate

      pub after-locate : bucket_of (find k after) ≡ (
          if concerned
          then keep (of_others worker) (bucket_of (find k index.entries))
          else bucket_of (find k index.entries))
      after-locate = ap bucket_of after-find ∙ left_where worker (find k index.entries) concerned

      pub after-scopes :
          (j : ScopedHash)
          → lists j k (discard_emptied (scope, hash) emptied index.by_hash)
            ≡ (is_some (find k after) && scoped_hash_eq (scoped k) j)
      after-scopes j =
          let q = scoped_hash_eq (scoped k) j in
          let s = scoped_hash_eq (scope, hash) j in
          discard_emptied-lists j (scope, hash) k emptied index.by_hash
          ∙ ap (λ x. x && not (s && has_key k emptied)) (v.scopes j k)
          ∙ ap (λ x. (held k && q) && not (s && x)) emptied-key
          ∙ scoped_after (held k) q concerned s (left k) (λ y.
            ap (λ x. scoped_hash_eq x j) (sym ((scoped_hash_eq_iff (scoped k) (scope, hash)).0 y)))
          ∙ ap (λ x. x && q) (sym after-held)

      pub after-hashes :
          (h : String)
          → lists h k (forget_content_hashes emptied index.by_content_hash)
            ≡ (is_some (find k after) && str_eq k.block_hash h)
      after-hashes h =
          let q = str_eq k.block_hash h in
          forget_content_hashes-lists h k emptied index.by_content_hash
          ∙ ap (λ x. x && not (has_key k emptied && q)) (v.hashes h k)
          ∙ ap (λ x. (held k && q) && not (x && q)) emptied-key
          ∙ hashes_after (held k) q concerned (left k)
          ∙ ap (λ x. x && q) (sym after-held)
