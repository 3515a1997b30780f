-- ===== src/Conductor/Cached.antt =====
-- What the prefix table of crates/quillcache-core/src/conductor.rs says: which instance has cached
-- which prefix in which context, and how each event changes that.
use quillcache.Prelude.{
  String, ◌≡◌, refl, sym, ap, ◌∙◌, subst, inl, inr, Bool, false, not, ◌&&◌, ◌||◌, none, some, List,
  [], ◌∷◌, arith, str_eq, eq_iff, Bool-cases, Option-cases, any,
}
use quillcache.StrMap.{lookup}
use quillcache.StrMap.Laws.{Distinct}
use quillcache.Conductor.{
  ModelContext, Table, Instances, PrefixCacheTable, context_eq, drop_instance, table_of, put_table,
  or_default, insert_each, store_blocks, put_or_remove, remove_block, is_empty, drop_from_table,
  drop_from_tables, remove_instance, holds, KvCacheEvent, block_stored, block_removed,
  instance_gone, handle,
}
use quillcache.Conductor.Contexts.{
  context_eq_iff, table_of-put_table, Tables, put_table-Tables, table_of-Tables,
}
use quillcache.Conductor.Holds.{
  contains-drop_instance, holds-put_or_remove, holds-insert_each, holds-drop_from_table,
  drop_from_table-Distinct, holds-empty, table_of-drop_from_tables, put_or_remove-Distinct,
  insert_each-Distinct,
}

-- The instance has cached the prefix in the context.
abbrev pub cached : PrefixCacheTable → ModelContext → String → String → Bool
cached t c p i = holds p i (or_default (table_of c t.tables))

-- A `HashMap` has each key once.
abbrev pub IsValid : PrefixCacheTable → Type 0
IsValid t = Tables Distinct t.tables

drop_from_tables-Tables :
    (i : String) (ts : List (ModelContext × Table))
    → Tables Distinct ts
    → Tables Distinct (drop_from_tables i ts)
unfolding drop_from_tables
drop_from_tables-Tables i [] v = tt
drop_from_tables-Tables i ((c, table) ∷ ts) v =
    elim (Bool-cases (is_empty (drop_from_table i table))) [
      | inl e ↦ rw e (drop_from_tables-Tables i ts v.2)
      | inr e ↦ rw e (
        table_of-drop_from_tables i c ts v.0,
        drop_from_table-Distinct i table v.1,
        drop_from_tables-Tables i ts v.2,
      )
    ]

held : ModelContext → String → String → List (ModelContext × Table) → Bool
held c q j ts = holds q j (or_default (table_of c ts))

nothing_held : (q j : String) → holds q j [] ≡ false
unfolding lookup
nothing_held q j = refl

held-drop_from_tables :
    (i : String) (c : ModelContext) (q j : String) (ts : List (ModelContext × Table))
    → Tables Distinct ts
    → held c q j (drop_from_tables i ts) ≡ held c q j ts && not (str_eq i j)
unfolding drop_from_tables held table_of
held-drop_from_tables i c q j [] v = rw (nothing_held q j) refl
held-drop_from_tables i c q j ((b, table) ∷ ts) v =
    let rest = held-drop_from_tables i c q j ts v.2 in
    let own = holds-drop_from_table i q j table v.1 in
    elim (Bool-cases (context_eq b c)) [
      | inl e ↦
          let absent : table_of c ts ≡ none =
            subst (λ k. table_of k ts ≡ none) ((context_eq_iff b c).0 e) v.0 in
          let gone = table_of-drop_from_tables i c ts absent in
          elim (Bool-cases (is_empty (drop_from_table i table))) [
            | inl z ↦
                rw (z, gone, e)
                  (nothing_held q j ∙ sym (holds-empty q j (drop_from_table i table) z) ∙ own)
            | inr z ↦ rw (z, e) own
          ]
      | inr e ↦ elim (Bool-cases (is_empty (drop_from_table i table))) [
        | inl z ↦ rw (z, e) rest
        | inr z ↦ rw (z, e) rest
      ]
    ]

-- What an event makes of `was`, whether instance `j` had cached prefix `q` in context `d`.
unfoldable pub after : KvCacheEvent → ModelContext → String → String → Bool → Bool
unfolding context_eq
after (block_stored c ps i) d q j was =
    was || (context_eq c d && str_eq i j && any (λ p. str_eq p q) ps)
after (block_removed c p i) d q j was = was && not (context_eq c d && str_eq p q && str_eq i j)
after (instance_gone i) d q j was = was && not (str_eq i j)

or_default-Distinct :
    (c : ModelContext) (ts : List (ModelContext × Table))
    → Tables Distinct ts
    → Distinct (or_default (table_of c ts))
or_default-Distinct c ts v = elim (Option-cases (table_of c ts)) [
  | inl e ↦ rw e tt
  | inr (table, e) ↦ rw e (table_of-Tables Distinct c table ts e v)
]

remove_block-IsValid :
    (c : ModelContext) (p i : String) (t : PrefixCacheTable)
    → IsValid t
    → IsValid (remove_block c p i t)
unfolding remove_block
remove_block-IsValid c p i t v = elim (Option-cases (table_of c t.tables)) [
  | inl e ↦ rw (e, remove_block) v
  | inr (table, e) ↦ elim (Option-cases (lookup p table)) [
    | inl f ↦ rw (e, remove_block) (rw f v)
    | inr (held_by, f) ↦
        rw (e, remove_block)
          (rw f (
            put_table-Tables Distinct c _ t.tables
              (put_or_remove-Distinct p (drop_instance i held_by) table
                (table_of-Tables Distinct c table t.tables e v))
              v))
  ]
]

handle-IsValid : (e : KvCacheEvent) (t : PrefixCacheTable) → IsValid t → IsValid (handle e t)
unfolding handle store_blocks remove_instance
handle-IsValid (block_stored c ps i) t v =
    put_table-Tables Distinct c _ t.tables
      (insert_each-Distinct i ps (or_default (table_of c t.tables))
        (or_default-Distinct c t.tables v))
      v
handle-IsValid (block_removed c p i) t v = remove_block-IsValid c p i t v
handle-IsValid (instance_gone i) t v = drop_from_tables-Tables i t.tables v

cached-store_blocks :
    (c d : ModelContext) (ps : List String) (i q j : String) (t : PrefixCacheTable)
    → cached (store_blocks c ps i t) d q j ≡ after (block_stored c ps i) d q j (cached t d q j)
unfolding store_blocks after
cached-store_blocks c d ps i q j t =
    let old = or_default (table_of c t.tables) in
    let there = table_of-put_table c d (insert_each i ps old) t.tables in
    elim (Bool-cases (context_eq c d)) [
      | inl e ↦
          let same : table_of c t.tables ≡ table_of d t.tables =
            ap (λ x. table_of x t.tables) ((context_eq_iff c d).0 e) in
          rw (there, e)
            (holds-insert_each i q j ps old
              ∙ ap (λ x. holds q j (or_default x) || (str_eq i j && any (λ p. str_eq p q) ps)) same)
      | inr e ↦ rw (there, e) (ground arith)
    ]

-- In its own context and under its own prefix, the removal leaves the other instances.
cached-put_table :
    (c d : ModelContext) (p i q j : String) (t : PrefixCacheTable) (table : Table)
    (held_by : Instances)
    → table_of c t.tables ≡ some table
    → lookup p table ≡ some held_by
    → holds q j (
        or_default
          (table_of d (put_table c (put_or_remove p (drop_instance i held_by) table) t.tables)))
      ≡ cached t d q j && not (context_eq c d && str_eq p q && str_eq i j)
cached-put_table c d p i q j t table held_by e f = elim (Bool-cases (context_eq c d)) [
  | inr n ↦
      rw (table_of-put_table c d (put_or_remove p (drop_instance i held_by) table) t.tables, n)
        (ground arith)
  | inl n ↦
      let here : table_of d t.tables ≡ some table =
        ap (λ x. table_of x t.tables) (sym ((context_eq_iff c d).0 n)) ∙ e in
      rw
        (table_of-put_table c d (put_or_remove p (drop_instance i held_by) table) t.tables, n, here)
        (elim (Bool-cases (str_eq p q)) [
          | inl m ↦
              let own : lookup q table ≡ some held_by =
                ap (λ x. lookup x table) (sym ((eq_iff p q).0 m)) ∙ f in
              ground (
                arith,
                holds-put_or_remove p q j (drop_instance i held_by) table,
                contains-drop_instance i j held_by,
              )
          | inr m ↦ ground (arith, holds-put_or_remove p q j (drop_instance i held_by) table)
        ])
]

-- Where nothing is removed, nothing was cached.
unchanged :
    (c d : ModelContext) (p i q j : String) (t : PrefixCacheTable)
    → holds p j (or_default (table_of c t.tables)) ≡ false
    → cached t d q j ≡ cached t d q j && not (context_eq c d && str_eq p q && str_eq i j)
unchanged c d p i q j t h = elim (Bool-cases (context_eq c d)) [
  | inr n ↦ rw n (ground arith)
  | inl n ↦ elim (Bool-cases (str_eq p q)) [
    | inr m ↦ rw (n, m) (ground arith)
    | inl m ↦
        let gone : cached t d q j ≡ false =
          subst (λ x. cached t x q j ≡ false) ((context_eq_iff c d).0 n)
            (subst (λ x. holds x j (or_default (table_of c t.tables)) ≡ false) ((eq_iff p q).0 m)
              h) in
        rw gone refl
  ]
]

cached-remove_block :
    (c d : ModelContext) (p i q j : String) (t : PrefixCacheTable)
    → cached (remove_block c p i t) d q j ≡ after (block_removed c p i) d q j (cached t d q j)
unfolding remove_block after
cached-remove_block c d p i q j t = elim (Option-cases (table_of c t.tables)) [
  | inl e ↦ rw (e, remove_block) (unchanged c d p i q j t (rw e (nothing_held p j)))
  | inr (table, e) ↦ elim (Option-cases (lookup p table)) [
    | inl f ↦ rw (e, remove_block) (rw f (unchanged c d p i q j t (rw (e, f) refl)))
    | inr (held_by, f) ↦
        rw (e, remove_block) (rw f (cached-put_table c d p i q j t table held_by e f))
  ]
]

-- Every event has on the table the effect that it reports, and no other: a stored event adds its
-- prefixes for its instance in its own context, a removed event takes that one prefix, and an
-- instance that is gone is taken from everywhere. A valid table stays valid.
pub handle-cached :
    (e : KvCacheEvent) (t : PrefixCacheTable)
    → IsValid t
    → IsValid (handle e t)
      × ((d : ModelContext) (q j : String)
          → cached (handle e t) d q j ≡ after e d q j (cached t d q j))
unfolding held
handle-cached (block_stored c ps i) t v = (
  handle-IsValid (block_stored c ps i) t v,
  λ d q j. unfold handle in cached-store_blocks c d ps i q j t,
)
handle-cached (block_removed c p i) t v = (
  handle-IsValid (block_removed c p i) t v,
  λ d q j. unfold handle in cached-remove_block c d p i q j t,
)
handle-cached (instance_gone i) t v = (
  handle-IsValid (instance_gone i) t v,
  λ d q j. unfold handle after remove_instance in held-drop_from_tables i d q j t.tables v,
)
