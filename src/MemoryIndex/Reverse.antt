-- ===== src/MemoryIndex/Reverse.antt =====
-- The lookup by content of crates/quillcache-core/src/lib.rs: MemoryIndex::residency_by_content_hash,
-- which seeks in a reverse index, against the default of IndexBackend, which filters a snapshot.
use quillcache.Prelude.{
  String, ◌≡◌, refl, sym, ap, ◌∙◌, inl, inr, Bool, true, ◌&&◌, ◌||◌, some, List, [], ◌∷◌, ◌++◌,
  arith, str_eq, if◌then◌else◌, Bool-cases, Option-cases, keep, any, All,
}
use quillcache.Identity.{KvBlockKey}
use quillcache.KeyMap.{find}
use quillcache.KeyMap.Laws.{Unique, find-first, find-later}
use quillcache.BlockStore.{block_key, block_key_eq, block_key_eq_iff}
use quillcache.MemoryIndex.{CacheResidency, text_key, MemoryIndex}
use quillcache.MemoryIndex.Buckets.{bucket_of, has_key}
use quillcache.MemoryIndex.Ops.{locate, concat, snapshot, entries_of, residency_by_content_hash}
use quillcache.MemoryIndex.Loops.{Entries, is_some}
use quillcache.MemoryIndex.Valid.{IsValid, bool_iff}

-- The default of the trait: `snapshot` filtered by the hash.
unfoldable pub scan_by_content_hash : String → MemoryIndex → List CacheResidency
unfolding snapshot
scan_by_content_hash hash index = keep (λ r. str_eq r.key.block_hash hash) (snapshot index)

module _ {A : Type 0} (p : A → Bool) where
  pub any-append : (xs ys : List A) → any p (xs ++ ys) ≡ (any p xs || any p ys)
  any-append [] ys = refl
  any-append (x ∷ xs) ys = ground (arith, any-append xs ys)

  any-keep : (q : A → Bool) (xs : List A) → any p (keep q xs) ≡ any (λ x. q x && p x) xs
  any-keep q [] = refl
  any-keep q (x ∷ xs) = ground (arith, any-keep q xs)

any-key :
    (q : KvBlockKey → Bool) (ks : List KvBlockKey)
    → any q ks ≡ true
    → (k : KvBlockKey) × (has_key k ks ≡ true) × (q k ≡ true)
any-key q [] e = absurd (ground (arith, e))
any-key q (x ∷ ks) e = elim (Bool-cases (q x)) [
  | inl y ↦ (x, rw ((block_key_eq_iff x x).1 refl) refl, y)
  | inr n ↦
      let rest : any q ks ≡ true = ap (λ b. if b then true else any q ks) (sym n) ∙ e in
      let (k, h, t) = any-key q ks rest in
      (k, elim (Bool-cases (block_key_eq x k)) [ inl y ↦ rw y refl | inr m ↦ rw m h ], t)
]

key-any :
    (q : KvBlockKey → Bool) (k : KvBlockKey) (ks : List KvBlockKey)
    → has_key k ks ≡ true
    → q k ≡ true
    → any q ks ≡ true
key-any q k [] h t = absurd (ground (arith, h))
key-any q k (x ∷ ks) h t = elim (Bool-cases (block_key_eq x k)) [
  | inl y ↦ rw (ap q ((block_key_eq_iff x k).0 y) ∙ t) refl
  | inr n ↦
      let rest = key-any q k ks (ap (λ b. if b then true else has_key k ks) (sym n) ∙ h) t in
      elim (Bool-cases (q x)) [ inl y ↦ rw y refl | inr m ↦ rw m rest ]
]

module _ (p : CacheResidency → Bool) where
  any-entries_of :
      (keys : List KvBlockKey) (entries : Entries)
      → any p (entries_of keys entries) ≡ any (λ k. any p (bucket_of (find k entries))) keys
  any-entries_of [] entries = refl
  any-entries_of (k ∷ keys) entries =
      any-append p (bucket_of (find k entries)) (entries_of keys entries)
      ∙ ap (λ b. any p (bucket_of (find k entries)) || b) (any-entries_of keys entries)
      ∙ elim (Bool-cases (any p (bucket_of (find k entries)))) [
        | inl y ↦ rw y refl
        | inr n ↦ rw n refl
      ]

  any-concat :
      (entries : Entries)
      → Unique entries
      → any p (concat entries) ≡ true
      → (k : KvBlockKey) × (any p (bucket_of (find k entries)) ≡ true)
  unfolding concat
  any-concat [] u e = absurd (ground (arith, e))
  any-concat ((k, rs) ∷ entries) u e = elim (Bool-cases (any p rs)) [
    | inl y ↦ (k, ap (λ o. any p (bucket_of o)) (find-first k rs entries) ∙ y)
    | inr n ↦
        let rest : any p (concat entries) ≡ true =
          ap (λ b. b || any p (concat entries)) (sym n)
          ∙ sym (any-append p rs (concat entries))
          ∙ e in
        let (j, h) = any-concat entries u.1 rest in
        (
          j,
          elim (Option-cases (find j entries)) [
            | inl o ↦ absurd (ground (arith, ap (λ x. any p (bucket_of x)) o, h))
            | inr (ss, o) ↦
                ap (λ x. any p (bucket_of x)) (find-later k j rs ss entries u.0 o)
                ∙ sym (ap (λ x. any p (bucket_of x)) o)
                ∙ h
          ],
        )
  ]

  concat-any :
      (k : KvBlockKey) (entries : Entries)
      → any p (bucket_of (find k entries)) ≡ true
      → any p (concat entries) ≡ true
  unfolding concat find
  concat-any k [] e = absurd (ground (arith, e))
  concat-any k ((j, rs) ∷ entries) e =
      any-append p rs (concat entries) ∙ elim (Bool-cases (block_key_eq j k)) [
        | inl y ↦
            let here : any p rs ≡ true =
              ap (λ b. any p (bucket_of (if b then some rs else find k entries))) (sym y) ∙ e in
            rw here refl
        | inr n ↦
            let there : any p (bucket_of (find k entries)) ≡ true =
              ap (λ b. any p (bucket_of (if b then some rs else find k entries))) (sym n) ∙ e in
            rw (concat-any k entries there) (ground arith)
      ]

  any-keyed :
      (hash : String) (k : KvBlockKey) (rs : List CacheResidency)
      → All (λ r. r.key ≡ k) rs
      → any (λ r. str_eq r.key.block_hash hash && p r) rs ≡ (str_eq k.block_hash hash && any p rs)
  any-keyed hash k [] a = ground arith
  any-keyed hash k (r ∷ rs) a =
      ground (arith, any-keyed hash k rs a.1, ap (λ x. str_eq x.block_hash hash) a.0)

module _ (hash : String) (p : CacheResidency → Bool) (index : MemoryIndex) (v : IsValid index) where
  abbrev both : CacheResidency → Bool
  both r = str_eq r.key.block_hash hash && p r

  locate-both :
      (k : KvBlockKey)
      → any both (bucket_of (find k index.entries))
        ≡ (str_eq k.block_hash hash && any p (bucket_of (find k index.entries)))
  locate-both k = any-keyed p hash k (bucket_of (find k index.entries)) (unfold locate in v.keyed k)

  seek : List KvBlockKey → Bool
  seek keys = any (λ k. any p (bucket_of (find k index.entries))) keys

  seek-scan :
      seek (bucket_of (find hash index.by_content_hash)) ≡ true
      → any both (concat index.entries) ≡ true
  unfolding seek
  seek-scan e =
      let (k, h, t) =
        any-key (λ k. any p (bucket_of (find k index.entries)))
          (bucket_of (find hash index.by_content_hash)) e in
      let listed : (is_some (find k index.entries) && str_eq k.block_hash hash) ≡ true =
        sym (v.hashes hash k) ∙ h in
      let same : str_eq k.block_hash hash ≡ true = ground arith in
      concat-any both k index.entries (locate-both k ∙ rw (same, t) refl)

  scan-seek :
      any both (concat index.entries) ≡ true
      → seek (bucket_of (find hash index.by_content_hash)) ≡ true
  unfolding seek
  scan-seek e =
      let (k, t) = any-concat both index.entries v.unique e in
      let two : (str_eq k.block_hash hash && any p (bucket_of (find k index.entries))) ≡ true =
        sym (locate-both k) ∙ t in
      let same : str_eq k.block_hash hash ≡ true = ground arith in
      let here : any p (bucket_of (find k index.entries)) ≡ true = ground arith in
      let held : is_some (find k index.entries) ≡ true =
        elim (Option-cases (find k index.entries)) [
          | inl o ↦ absurd (ground (arith, ap (λ x. any p (bucket_of x)) o, here))
          | inr (rs, o) ↦ ap is_some o
        ] in
      key-any (λ k. any p (bucket_of (find k index.entries))) k
        (bucket_of (find hash index.by_content_hash)) (v.hashes hash k ∙ rw (held, same) refl) here

  seeks :
      any p (residency_by_content_hash hash index)
      ≡ seek (bucket_of (find hash index.by_content_hash))
  unfolding residency_by_content_hash seek
  seeks = elim (Option-cases (find hash index.by_content_hash)) [
    | inl o ↦ rw (o, residency_by_content_hash) refl
    | inr (keys, o) ↦ rw (o, residency_by_content_hash) (any-entries_of p keys index.entries)
  ]

  -- On a valid index, the seek in the reverse index and the filtered snapshot have the same
  -- residencies: every test that some residency of the one passes is passed by one of the other.
  pub residency_by_content_hash-scan :
      any p (residency_by_content_hash hash index) ≡ any p (scan_by_content_hash hash index)
  unfolding scan_by_content_hash snapshot
  residency_by_content_hash-scan =
      seeks
      ∙ bool_iff (seek (bucket_of (find hash index.by_content_hash)))
          (any both (concat index.entries)) seek-scan scan-seek
      ∙ sym (any-keep p (λ r. str_eq r.key.block_hash hash) (concat index.entries))
