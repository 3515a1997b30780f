-- ===== src/MemoryIndex/Valid.antt =====
-- What holds of the index of crates/quillcache-core/src/lib.rs between two operations.
use quillcache.Prelude.{
  String, ◌≡◌, refl, sym, ap, ◌∙◌, subst, inl, inr, Bool, true, false, ◌&&◌, ◌||◌, List, [], ◌∷◌,
  ◌++◌, arith, str_eq, eq_iff, if◌then◌else◌, Bool-cases, keep, All, All-append,
}
use quillcache.Identity.{KvBlockKey, IdentityScope, scope_matches}
use quillcache.Identity.Guard.{scope_matches_iff}
use quillcache.KeyMap.{find}
use quillcache.KeyMap.Laws.{find-put, Unique, put-Unique}
use quillcache.BlockStore.{block_key, block_key_eq, block_key_eq_iff}
use quillcache.MemoryIndex.{
  CacheResidency, text_key, ScopedHash, scoped_hash_key, scoped_hash_eq, scoped_hash_eq_iff,
  MemoryIndex,
}
use quillcache.MemoryIndex.Buckets.{bucket_of, lists, lists-add_key}
use quillcache.MemoryIndex.Ops.{empty_index, scoped, elsewhere, locate, put_residency}
use quillcache.MemoryIndex.Loops.{is_some}

-- Each key has one entry, what stands under a key carries it, and each reverse index lists exactly
-- the keys that have an entry, under their own hash.
pub record IsValid (index : MemoryIndex) : Type 0 where
  pub unique : Unique index.entries
  pub keyed : (k : KvBlockKey) → All (λ r. r.key ≡ k) (locate k index)
  pub scopes :
      (j : ScopedHash) (k : KvBlockKey)
      → lists j k index.by_hash ≡ (is_some (find k index.entries) && scoped_hash_eq (scoped k) j)
  pub hashes :
      (hash : String) (k : KvBlockKey)
      → lists hash k index.by_content_hash
        ≡ (is_some (find k index.entries) && str_eq k.block_hash hash)

pub empty_index-IsValid : IsValid empty_index
unfolding find locate
empty_index-IsValid = record {
  unique = tt;
  keyed = λ k. tt;
  scopes = λ j k. refl;
  hashes = λ h k. refl;
}

pub All-keep :
    {A : Type 0} (P : A → Type 0) (p : A → Bool) (xs : List A) → All P xs → All P (keep p xs)
All-keep P p [] a = a
All-keep P p (x ∷ xs) a = ground (arith, a, All-keep P p xs a.1)

pub bool_iff : (a b : Bool) → (a ≡ true → b ≡ true) → (b ≡ true → a ≡ true) → a ≡ b
bool_iff true b f g = sym (f refl)
bool_iff false true f g = g refl
bool_iff false false f g = refl

-- A key is in a scope and carries a hash exactly when it is listed under both.
pub scope_matches-scoped :
    (scope : IdentityScope) (hash : String) (k : KvBlockKey)
    → (scope_matches scope k && str_eq k.block_hash hash) ≡ scoped_hash_eq (scoped k) (scope, hash)
scope_matches-scoped scope hash k =
    bool_iff (scope_matches scope k && str_eq k.block_hash hash)
      (scoped_hash_eq (scoped k) (scope, hash))
      (λ e.
        let one : scope_matches scope k ≡ true = ground arith in
        let two : str_eq k.block_hash hash ≡ true = ground arith in
        let s = (scope_matches_iff scope k).0 one in
        let h = (eq_iff k.block_hash hash).0 two in
        (scoped_hash_eq_iff (scoped k) (scope, hash)).1
          (sym (ap (λ x. (x, k.block_hash)) s) ∙ ap (λ x. (scope, x)) h))
      (λ e.
        let p = (scoped_hash_eq_iff (scoped k) (scope, hash)).0 e in
        let one = (scope_matches_iff scope k).1 (sym (ap (λ x. x.0) p)) in
        let two = (eq_iff k.block_hash hash).1 (ap (λ x. x.1) p) in rw one two)

-- An entry after a put.
found_after :
    (k : KvBlockKey) (r : CacheResidency) (index : MemoryIndex)
    → is_some (find k (put_residency r index).entries)
      ≡ (block_key_eq r.key k || is_some (find k index.entries))
unfolding put_residency
found_after k r index =
    ap is_some (
      find-put r.key k (keep (elsewhere r) (bucket_of (find r.key index.entries)) ++ r ∷ [])
        index.entries)
    ∙ elim (Bool-cases (block_key_eq r.key k)) [ inl y ↦ rw y refl | inr n ↦ rw n refl ]

-- A put adds the residency behind those of its key, in place of the one of its worker and tier, and
-- changes nothing under another key.
put_residency-locate :
    (k : KvBlockKey) (r : CacheResidency) (index : MemoryIndex)
    → locate k (put_residency r index) ≡ (
        if block_key_eq r.key k
        then keep (elsewhere r) (locate k index) ++ r ∷ []
        else locate k index)
unfolding put_residency locate
put_residency-locate k r index =
    ap bucket_of (
      find-put r.key k (keep (elsewhere r) (bucket_of (find r.key index.entries)) ++ r ∷ [])
        index.entries)
    ∙ elim (Bool-cases (block_key_eq r.key k)) [
      | inl y ↦ rw y (
          ap (λ x. keep (elsewhere r) (bucket_of (find x index.entries)) ++ r ∷ [])
            ((block_key_eq_iff r.key k).0 y))
      | inr n ↦ rw n refl
    ]

-- The key of a put is listed under its own hashes, whatever `own` hash of a key that is.
listed : (b o q x : Bool) → (b ≡ true → o ≡ q) → ((o && b) || (x && q)) ≡ ((b || x) && q)
listed true o q x e = rw (e refl) (ground arith)
listed false o q x e = ground arith

pub put_residency-IsValid :
    (r : CacheResidency) (index : MemoryIndex) → IsValid index → IsValid (put_residency r index)
unfolding put_residency
put_residency-IsValid r index v = record {
  unique = put-Unique r.key _ index.entries v.unique;
  keyed = λ k. subst (All (λ x. x.key ≡ k)) (sym (put_residency-locate k r index)) (keyed_after k);
  scopes = λ j k.
      lists-add_key j (scoped r.key) k r.key index.by_hash
      ∙ ap (λ x. (scoped_hash_eq (scoped r.key) j && block_key_eq r.key k) || x) (v.scopes j k)
      ∙ listed (block_key_eq r.key k) (scoped_hash_eq (scoped r.key) j)
          (scoped_hash_eq (scoped k) j) (is_some (find k index.entries))
          (λ y. ap (λ x. scoped_hash_eq (scoped x) j) ((block_key_eq_iff r.key k).0 y))
      ∙ ap (λ x. x && scoped_hash_eq (scoped k) j) (sym (found_after k r index));
  hashes = λ h k.
      lists-add_key h r.key.block_hash k r.key index.by_content_hash
      ∙ ap (λ x. (str_eq r.key.block_hash h && block_key_eq r.key k) || x) (v.hashes h k)
      ∙ listed (block_key_eq r.key k) (str_eq r.key.block_hash h) (str_eq k.block_hash h)
          (is_some (find k index.entries))
          (λ y. ap (λ x. str_eq x.block_hash h) ((block_key_eq_iff r.key k).0 y))
      ∙ ap (λ x. x && str_eq k.block_hash h) (sym (found_after k r index));
}
  where
    keyed_after :
        (k : KvBlockKey)
        → All
            (λ x. x.key ≡ k)
            (if block_key_eq r.key k
              then keep (elsewhere r) (locate k index) ++ r ∷ []
              else locate k index)
    keyed_after k = elim (Bool-cases (block_key_eq r.key k)) [
      | inl y ↦ rw y (
          All-append (λ x. x.key ≡ k) (keep (elsewhere r) (locate k index)) (r ∷ [])
            (All-keep (λ x. x.key ≡ k) (elsewhere r) (locate k index) (v.keyed k))
            ((block_key_eq_iff r.key k).0 y, tt))
      | inr n ↦ rw n (v.keyed k)
    ]
