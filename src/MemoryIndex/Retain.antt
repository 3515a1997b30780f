-- ===== src/MemoryIndex/Retain.antt =====
-- What MemoryIndex::clear_worker of crates/quillcache-core/src/lib.rs leaves under each key.
use quillcache.Prelude.{
  String, ◌≡◌, refl, sym, ap, ◌∙◌, inl, inr, true, false, not, ◌&&◌, ◌||◌, Option, none, some, List,
  [], ◌∷◌, arith, if◌then◌else◌, Bool-cases, keep,
}
use quillcache.Identity.{KvBlockKey}
use quillcache.KeyMap.{find}
use quillcache.KeyMap.Laws.{Unique}
use quillcache.BlockStore.{block_key, block_key_eq, block_key_eq_iff}
use quillcache.MemoryIndex.{CacheResidency, text_key, scoped_hash_key}
use quillcache.MemoryIndex.Buckets.{has_key}
use quillcache.MemoryIndex.Ops.{of_others, note_empty, retain_entries}
use quillcache.MemoryIndex.Ops.{keep_entry}
use quillcache.MemoryIndex.Loops.{Entries, is_some, some_left, left_of, has_key-note_empty}

abbrev or_else : {V : Type 0} → Option V → Option V → Option V
or_else none o = o
or_else (some v) o = some v

or_else-none : {V : Type 0} (o : Option V) → or_else o none ≡ o
or_else-none none = refl
or_else-none (some v) = refl

find-keep_entry :
    (k key : KvBlockKey) (left : List CacheResidency) (p : Entries × List KvBlockKey)
    → find k (keep_entry key left p).0
      ≡ (if block_key_eq key k then or_else (some_left left) (find k p.0) else find k p.0)
unfolding find
find-keep_entry k key [] p = elim (Bool-cases (block_key_eq key k)) [
  | inl y ↦ rw y refl
  | inr n ↦ rw n refl
]
find-keep_entry k key (r ∷ rs) p = refl

keep_entry-emptied :
    (key : KvBlockKey) (left : List CacheResidency) (p : Entries × List KvBlockKey)
    → (keep_entry key left p).1 ≡ note_empty key left p.1
keep_entry-emptied key [] p = refl
keep_entry-emptied key (r ∷ rs) p = refl

find-cons :
    (k key : KvBlockKey) (rs : List CacheResidency) (entries : Entries)
    → find k ((key, rs) ∷ entries) ≡ (if block_key_eq key k then some rs else find k entries)
unfolding find
find-cons k key rs entries = refl

module _ (worker : String) where
  retain_entries-absent :
      (k : KvBlockKey) (entries : Entries)
      → find k entries ≡ none
      → find k (retain_entries worker entries).0 ≡ none
  unfolding retain_entries
  retain_entries-absent k [] e = e
  retain_entries-absent k ((key, rs) ∷ entries) e = elim (Bool-cases (block_key_eq key k)) [
    | inl y ↦ absurd (
        ground (
          arith,
          sym (find-cons k key rs entries ∙ ap (λ b. if b then some rs else find k entries) y) ∙ e,
        ))
    | inr n ↦
        let rest : find k entries ≡ none =
          sym (find-cons k key rs entries ∙ ap (λ b. if b then some rs else find k entries) n)
          ∙ e in
        find-keep_entry k key (keep (of_others worker) rs) (retain_entries worker entries)
        ∙ ap
            (λ b.
              if b
              then or_else (some_left (keep (of_others worker) rs))
                  (find k (retain_entries worker entries).0)
              else find k (retain_entries worker entries).0)
            n
        ∙ retain_entries-absent k entries rest
  ]

  module _ (k key : KvBlockKey) (rs : List CacheResidency) (entries : Entries)
      (u : find key entries ≡ none) (y : block_key_eq key k ≡ true) where
    shadowed : find k entries ≡ none
    shadowed = ap (λ x. find x entries) (sym ((block_key_eq_iff key k).0 y)) ∙ u

    own : find k ((key, rs) ∷ entries) ≡ some rs
    own = find-cons k key rs entries ∙ ap (λ b. if b then some rs else find k entries) y

  other :
      (k key : KvBlockKey) (rs : List CacheResidency) (entries : Entries)
      → block_key_eq key k ≡ false
      → find k ((key, rs) ∷ entries) ≡ find k entries
  other k key rs entries n =
      find-cons k key rs entries ∙ ap (λ b. if b then some rs else find k entries) n

  pub retain_entries-find :
      (k : KvBlockKey) (entries : Entries)
      → Unique entries
      → find k (retain_entries worker entries).0 ≡ left_of worker (find k entries)
  unfolding retain_entries
  retain_entries-find k [] u = unfold find in refl
  retain_entries-find k ((key, rs) ∷ entries) u =
      let left = keep (of_others worker) rs in
      let rest = (retain_entries worker entries).0 in
      find-keep_entry k key left (retain_entries worker entries)
      ∙ elim (Bool-cases (block_key_eq key k)) [
        | inl y ↦
            rw
              (
                y,
                own k key rs entries u.0 y,
                retain_entries-absent k entries (shadowed k key rs entries u.0 y),
              )
              (or_else-none (some_left left))
        | inr n ↦ rw (n, other k key rs entries n) (retain_entries-find k entries u.1)
      ]

  pub retain_entries-emptied :
      (k : KvBlockKey) (entries : Entries)
      → Unique entries
      → has_key k (retain_entries worker entries).1
        ≡ (is_some (find k entries) && not (is_some (left_of worker (find k entries))))
  unfolding retain_entries
  retain_entries-emptied k [] u = unfold find in refl
  retain_entries-emptied k ((key, rs) ∷ entries) u =
      let left = keep (of_others worker) rs in
      let em = (retain_entries worker entries).1 in
      ap (has_key k) (keep_entry-emptied key left (retain_entries worker entries))
      ∙ has_key-note_empty worker k key left em
      ∙ ap (λ x. (block_key_eq key k && not (is_some (some_left left))) || x)
          (retain_entries-emptied k entries u.1)
      ∙ elim (Bool-cases (block_key_eq key k)) [
        | inl y ↦ rw (y, own k key rs entries u.0 y, shadowed k key rs entries u.0 y) (ground arith)
        | inr n ↦ rw (n, other k key rs entries n) (ground arith)
      ]

  keep_entry-Unique :
      (key : KvBlockKey) (left : List CacheResidency) (p : Entries × List KvBlockKey)
      → find key p.0 ≡ none
      → Unique p.0
      → Unique (keep_entry key left p).0
  keep_entry-Unique key [] p e u = u
  keep_entry-Unique key (r ∷ rs) p e u = (e, u)

  pub retain_entries-Unique :
      (entries : Entries) → Unique entries → Unique (retain_entries worker entries).0
  unfolding retain_entries
  retain_entries-Unique [] u = tt
  retain_entries-Unique ((key, rs) ∷ entries) u =
      keep_entry-Unique key (keep (of_others worker) rs) (retain_entries worker entries)
        (retain_entries-absent key entries u.0) (retain_entries-Unique entries u.1)
