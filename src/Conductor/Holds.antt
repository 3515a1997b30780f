-- ===== src/Conductor/Holds.antt =====
-- What one table of crates/quillcache-core/src/conductor.rs holds after each change.
use quillcache.Prelude.{
  String, ◌≡◌, refl, ap, subst, inl, inr, true, false, not, ◌&&◌, ◌||◌, none, List, [], ◌∷◌, arith,
  str_eq, eq_iff, if◌then◌else◌, Bool-cases, any,
}
use quillcache.StrMap.{lookup, insert}
use quillcache.StrMap.Laws.{
  lookup-insert, lookup-remove, Distinct, insert-Distinct, remove-Distinct,
}
use quillcache.Conductor.{
  ModelContext, Table, Instances, contains, add_instance, drop_instance, table_of, or_default,
  insert_each, put_or_remove, is_empty, drop_from_table, drop_from_tables, holds,
}

contains-add_instance :
    (i j : String) (s : Instances) → contains j (add_instance i s) ≡ contains j s || str_eq i j
unfolding add_instance
contains-add_instance i j s = elim (Bool-cases (contains i s)) [
  | inl h ↦ elim (Bool-cases (str_eq i j)) [
    | inl e ↦
        let same = (eq_iff i j).0 e in
        rw (h, e) (ground (arith, subst (λ k. contains k s ≡ true) same h))
    | inr e ↦ ground arith
  ]
  | inr h ↦ ground arith
]

pub contains-drop_instance :
    (i j : String) (s : Instances)
    → contains j (drop_instance i s) ≡ contains j s && not (str_eq i j)
unfolding drop_instance
contains-drop_instance i j [] = refl
contains-drop_instance i j (x ∷ s) =
    ground (arith, contains-drop_instance i j s, eq_iff x i, eq_iff x j, eq_iff i j)

holds-insert :
    (p q j : String) (s : Instances) (table : Table)
    → holds q j (insert p s table) ≡ (if str_eq p q then contains j s else holds q j table)
holds-insert p q j s table = ground (arith, lookup-insert p q s table)

pub holds-put_or_remove :
    (p q j : String) (s : Instances) (table : Table)
    → holds q j (put_or_remove p s table) ≡ (if str_eq p q then contains j s else holds q j table)
unfolding put_or_remove
holds-put_or_remove p q j [] table = ground (arith, lookup-remove p q table)
holds-put_or_remove p q j (x ∷ s) table = holds-insert p q j (x ∷ s) table

pub holds-insert_each :
    (i q j : String) (ps : List String) (table : Table)
    → holds q j (insert_each i ps table)
      ≡ holds q j table || (str_eq i j && any (λ p. str_eq p q) ps)
unfolding insert_each
holds-insert_each i q j [] table = ground arith
holds-insert_each i q j (p ∷ ps) table =
    let s = or_default (lookup p table) in
    let rest = holds-insert_each i q j ps (insert p (add_instance i s) table) in
    elim (Bool-cases (str_eq p q)) [
      | inl e ↦
          let same = (eq_iff p q).0 e in
          let here : contains j s ≡ holds q j table = ap (λ k. holds k j table) same in
          ground (
            arith,
            rest,
            holds-insert p q j (add_instance i s) table,
            contains-add_instance i j s,
            here,
          )
      | inr e ↦ ground (arith, rest, holds-insert p q j (add_instance i s) table)
    ]

pub lookup-drop_from_table :
    (i q : String) (table : Table)
    → lookup q table ≡ none
    → lookup q (drop_from_table i table) ≡ none
unfolding lookup drop_from_table
lookup-drop_from_table i q [] h = refl
lookup-drop_from_table i q ((p, s) ∷ table) h = ground (arith, lookup-drop_from_table i q table)

contains-empty : (j : String) (s : Instances) → is_empty s ≡ true → contains j s ≡ false
contains-empty j [] e = refl
contains-empty j (x ∷ s) e = ground arith

pub holds-drop_from_table :
    (i q j : String) (table : Table)
    → Distinct table
    → holds q j (drop_from_table i table) ≡ holds q j table && not (str_eq i j)
unfolding drop_from_table lookup
holds-drop_from_table i q j [] d = refl
holds-drop_from_table i q j ((p, s) ∷ table) d =
    let rest = holds-drop_from_table i q j table d.1 in
    let own = contains-drop_instance i j s in
    let gone = contains-empty j (drop_instance i s) in
    elim (Bool-cases (str_eq p q)) [
      | inl e ↦
          let absent : lookup q table ≡ none =
            subst (λ k. lookup k table ≡ none) ((eq_iff p q).0 e) d.0 in
          ground (arith, own, gone, lookup-drop_from_table i q table absent)
      | inr e ↦ ground (arith, rest)
    ]

pub drop_from_table-Distinct :
    (i : String) (table : Table) → Distinct table → Distinct (drop_from_table i table)
unfolding drop_from_table
drop_from_table-Distinct i [] d = tt
drop_from_table-Distinct i ((p, s) ∷ table) d =
    ground (arith, drop_from_table-Distinct i table d.1, lookup-drop_from_table i p table d.0)

pub table_of-drop_from_tables :
    (i : String) (c : ModelContext) (ts : List (ModelContext × Table))
    → table_of c ts ≡ none
    → table_of c (drop_from_tables i ts) ≡ none
unfolding table_of drop_from_tables
table_of-drop_from_tables i c [] h = refl
table_of-drop_from_tables i c ((b, table) ∷ ts) h = ground (arith, table_of-drop_from_tables i c ts)

pub holds-empty : (p j : String) (table : Table) → is_empty table ≡ true → holds p j table ≡ false
holds-empty p j [] e = unfold lookup in refl
holds-empty p j (x ∷ table) e = ground arith

pub put_or_remove-Distinct :
    (p : String) (s : Instances) (table : Table)
    → Distinct table
    → Distinct (put_or_remove p s table)
unfolding put_or_remove
put_or_remove-Distinct p [] table d = remove-Distinct p table d
put_or_remove-Distinct p (x ∷ s) table d = insert-Distinct p (x ∷ s) table d

pub insert_each-Distinct :
    (i : String) (ps : List String) (table : Table)
    → Distinct table
    → Distinct (insert_each i ps table)
unfolding insert_each
insert_each-Distinct i [] table d = d
insert_each-Distinct i (p ∷ ps) table d =
    let s = add_instance i (or_default (lookup p table)) in
    insert_each-Distinct i ps (insert p s table) (insert-Distinct p s table d)
