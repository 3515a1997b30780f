-- ===== src/MemoryIndex/Loops.antt =====
-- The loops of crates/quillcache-core/src/lib.rs over block keys: what MemoryIndex::remove_block and
-- clear_worker leave under each key.
use quillcache.Prelude.{
  ◌+◌, String, ◌≡◌, refl, sym, ap, ◌∙◌, inl, inr, Bool, true, false, not, ◌&&◌, ◌||◌, Option, none,
  some, List, [], ◌∷◌, arith, str_eq, if◌then◌else◌, Bool-cases, Option-cases, length, keep,
  length-keep-le,
}
use quillcache.Identity.{KvBlockKey}
use quillcache.KeyMap.{KeyMap, find}
use quillcache.KeyMap.Laws.{
  find-put, find-delete, Unique, put-Unique, delete-Unique, total, total-put, total-delete, weight,
}
use quillcache.BlockStore.{block_key, block_key_eq, block_key_eq_iff}
use quillcache.MemoryIndex.{CacheResidency, text_key, scoped_hash_key}
use quillcache.MemoryIndex.Buckets.{has_key}
use quillcache.MemoryIndex.Ops.{of_others, put_left, note_empty, evict_each}

abbrev pub Entries : Type 0
Entries = KeyMap KvBlockKey (List CacheResidency)

abbrev pub is_some : {V : Type 0} → Option V → Bool
is_some none = false
is_some (some v) = true

-- What remains of the residencies of one key.
abbrev pub some_left : List CacheResidency → Option (List CacheResidency)
some_left [] = none
some_left (r ∷ rs) = some (r ∷ rs)

abbrev pub left_of : String → Option (List CacheResidency) → Option (List CacheResidency)
left_of worker none = none
left_of worker (some rs) = some_left (keep (of_others worker) rs)

keep_twice :
    (worker : String) (rs : List CacheResidency)
    → keep (of_others worker) (keep (of_others worker) rs) ≡ keep (of_others worker) rs
keep_twice worker [] = refl
keep_twice worker (r ∷ rs) = elim (Bool-cases (str_eq r.worker_id worker)) [
  | inl y ↦ rw y (keep_twice worker rs)
  | inr n ↦ rw n (rw n (ap (λ l. r ∷ l) (keep_twice worker rs)))
]

left_of-some_left :
    (worker : String) (l : List CacheResidency)
    → keep (of_others worker) l ≡ l
    → left_of worker (some_left l) ≡ some_left l
left_of-some_left worker [] e = refl
left_of-some_left worker (r ∷ l) e = ap some_left e

left_twice :
    (worker : String) (o : Option (List CacheResidency))
    → left_of worker (left_of worker o) ≡ left_of worker o
left_twice worker none = refl
left_twice worker (some rs) =
    left_of-some_left worker (keep (of_others worker) rs) (keep_twice worker rs)

find-put_left :
    (key k : KvBlockKey) (left : List CacheResidency) (entries : Entries)
    → find k (put_left key left entries)
      ≡ (if block_key_eq key k then some_left left else find k entries)
find-put_left key k [] entries = find-delete key k entries
find-put_left key k (r ∷ rs) entries = find-put key k (r ∷ rs) entries

-- A round and the rounds after it, on one key: `b` says that the round is about it, `h` that a later
-- one is.
skip_round :
    (w : String) (b h : Bool) (o : Option (List CacheResidency))
    → (b ≡ true → o ≡ none)
    → (if h then left_of w o else o) ≡ (if if b then true else h then left_of w o else o)
skip_round w true true o e = refl
skip_round w true false o e = e refl ∙ sym (ap (left_of w) (e refl))
skip_round w false h o e = refl

take_round :
    (w : String) (b h : Bool) (o o' : Option (List CacheResidency))
    → o' ≡ (if b then left_of w o else o)
    → (if h then left_of w o' else o') ≡ (if if b then true else h then left_of w o else o)
take_round w true true o o' e = ap (left_of w) e ∙ left_twice w o
take_round w true false o o' e = e
take_round w false true o o' e = ap (left_of w) e
take_round w false false o o' e = e

skip_note :
    (b h z : Bool) (o : Option (List CacheResidency))
    → (b ≡ true → o ≡ none)
    → (h && is_some o && z) ≡ ((if b then true else h) && is_some o && z)
skip_note true h z o e = rw (e refl) (ground arith)
skip_note false h z o e = refl

note_round :
    (w : String) (b h z : Bool) (o o' : Option (List CacheResidency))
    → o' ≡ (if b then left_of w o else o)
    → (b ≡ true → (is_some o ≡ true) × (z ≡ is_some (left_of w o)))
    → ((b && not z) || (h && is_some o' && not (is_some (left_of w o'))))
      ≡ ((if b then true else h) && is_some o && not (is_some (left_of w o)))
note_round w true h z o o' e f =
    let twice : left_of w o' ≡ left_of w o = ap (left_of w) e ∙ left_twice w o in
    rw (e, left_twice w o) (ground (arith, f refl))
note_round w false h z o o' e f = rw e (ground arith)

module _ (worker : String) where
  -- One round of the loop over the candidates.
  round :
      (key k : KvBlockKey) (rs : List CacheResidency) (entries : Entries)
      → find key entries ≡ some rs
      → find k (put_left key (keep (of_others worker) rs) entries)
        ≡ (if block_key_eq key k then left_of worker (find k entries) else find k entries)
  round key k rs entries e =
      find-put_left key k (keep (of_others worker) rs) entries
      ∙ elim (Bool-cases (block_key_eq key k)) [
        | inl y ↦
            rw y (
              ap (left_of worker) (sym e ∙ ap (λ x. find x entries) ((block_key_eq_iff key k).0 y)))
        | inr n ↦ rw n refl
      ]

  pub evict_each-find :
      (k : KvBlockKey) (keys : List KvBlockKey) (entries : Entries)
      → find k (evict_each worker keys entries).0
        ≡ (if has_key k keys then left_of worker (find k entries) else find k entries)
  unfolding evict_each
  evict_each-find k [] entries = refl
  evict_each-find k (key ∷ keys) entries = elim (Option-cases (find key entries)) [
    | inl o ↦
        rw (o, evict_each)
          (evict_each-find k keys entries
            ∙ skip_round worker (block_key_eq key k) (has_key k keys) (find k entries)
                (λ y. ap (λ x. find x entries) (sym ((block_key_eq_iff key k).0 y)) ∙ o))
    | inr (rs, o) ↦
        rw (o, evict_each)
          (evict_each-find k keys (put_left key (keep (of_others worker) rs) entries)
            ∙ take_round worker (block_key_eq key k) (has_key k keys) (find k entries)
                (find k (put_left key (keep (of_others worker) rs) entries))
                (round key k rs entries o))
  ]

  pub has_key-note_empty :
      (k key : KvBlockKey) (left : List CacheResidency) (emptied : List KvBlockKey)
      → has_key k (note_empty key left emptied)
        ≡ ((block_key_eq key k && not (is_some (some_left left))) || has_key k emptied)
  has_key-note_empty k key [] emptied = elim (Bool-cases (block_key_eq key k)) [
    | inl y ↦ rw y refl
    | inr n ↦ rw n refl
  ]
  has_key-note_empty k key (r ∷ rs) emptied = elim (Bool-cases (block_key_eq key k)) [
    | inl y ↦ rw y refl
    | inr n ↦ rw n refl
  ]

  pub evict_each-emptied :
      (k : KvBlockKey) (keys : List KvBlockKey) (entries : Entries)
      → has_key k (evict_each worker keys entries).2 ≡ (
          has_key k keys
          && is_some (find k entries)
          && not (is_some (left_of worker (find k entries))))
  unfolding evict_each
  evict_each-emptied k [] entries = refl
  evict_each-emptied k (key ∷ keys) entries = elim (Option-cases (find key entries)) [
    | inl o ↦
        rw (o, evict_each)
          (evict_each-emptied k keys entries
            ∙ skip_note (block_key_eq key k) (has_key k keys)
                (not (is_some (left_of worker (find k entries)))) (find k entries)
                (λ y. ap (λ x. find x entries) (sym ((block_key_eq_iff key k).0 y)) ∙ o))
    | inr (rs, o) ↦
        let left = keep (of_others worker) rs in
        let entries' = put_left key left entries in
        let own : (block_key_eq key k ≡ true) → find k entries ≡ some rs =
          λ y. ap (λ x. find x entries) (sym ((block_key_eq_iff key k).0 y)) ∙ o in
        rw (o, evict_each)
          (has_key-note_empty k key left (evict_each worker keys entries').2
            ∙ ap (λ x. (block_key_eq key k && not (is_some (some_left left))) || x)
                (evict_each-emptied k keys entries')
            ∙ note_round worker (block_key_eq key k) (has_key k keys) (is_some (some_left left))
                (find k entries) (find k entries') (round key k rs entries o)
                (λ y. (ap is_some (own y), sym (ap (λ x. is_some (left_of worker x)) (own y)))))
  ]

  put_left-Unique :
      (key : KvBlockKey) (left : List CacheResidency) (entries : Entries)
      → Unique entries
      → Unique (put_left key left entries)
  put_left-Unique key [] entries u = delete-Unique key entries u
  put_left-Unique key (r ∷ rs) entries u = put-Unique key (r ∷ rs) entries u

  pub evict_each-Unique :
      (keys : List KvBlockKey) (entries : Entries)
      → Unique entries
      → Unique (evict_each worker keys entries).0
  unfolding evict_each
  evict_each-Unique [] entries u = u
  evict_each-Unique (key ∷ keys) entries u = elim (Option-cases (find key entries)) [
    | inl o ↦ rw (o, evict_each) (evict_each-Unique keys entries u)
    | inr (rs, o) ↦
        let left = keep (of_others worker) rs in
        rw (o, evict_each)
          (evict_each-Unique keys (put_left key left entries) (put_left-Unique key left entries u))
  ]

  total-put_left :
      (key : KvBlockKey) (left : List CacheResidency) (entries : Entries)
      → Unique entries
      → total length (put_left key left entries) + weight length (find key entries)
        ≡ total length entries + length left
  total-put_left key [] entries u = omega (arith, total-delete length key entries u)
  total-put_left key (r ∷ rs) entries u = total-put length key (r ∷ rs) entries

  -- As many residencies are counted as go.
  pub evict_each-removed :
      (keys : List KvBlockKey) (entries : Entries)
      → Unique entries
      → total length (evict_each worker keys entries).0 + (evict_each worker keys entries).1
        ≡ total length entries
  unfolding evict_each
  evict_each-removed [] entries u = omega arith
  evict_each-removed (key ∷ keys) entries u = elim (Option-cases (find key entries)) [
    | inl o ↦ rw (o, evict_each) (evict_each-removed keys entries u)
    | inr (rs, o) ↦
        let left = keep (of_others worker) rs in
        let fewer = length-keep-le (of_others worker) rs in
        let step = total-put_left key left entries u in
        let size : weight length (find key entries) ≡ length rs = ap (weight length) o in
        let rest =
          evict_each-removed keys (put_left key left entries)
            (put_left-Unique key left entries u) in
        rw (o, evict_each) (omega (arith, fewer, step, size, rest))
  ]
