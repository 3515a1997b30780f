-- ===== src/Conductor/Contexts.antt =====
-- The map from contexts to tables of crates/quillcache-core/src/conductor.rs.
use quillcache.Prelude.{
  ◌≡◌, refl, sym, ap, ◌∙◌, subst, ◌↔◌, inl, inr, true, false, false≢true, none, some, List, [], ◌∷◌,
  arith, eq_iff, if◌then◌else◌, ==_iff, Bool-cases,
}
use quillcache.Identity.Guard.{opt_eq_iff}
use quillcache.Conductor.{ModelContext, Table, context_eq, table_of, put_table}

pub context_eq_iff : (a b : ModelContext) → (context_eq a b ≡ true) ↔ (a ≡ b)
unfolding context_eq
context_eq_iff a b = ground (
  arith,
  eq_iff a.tenant_id b.tenant_id,
  eq_iff a.model_id b.model_id,
  eq_iff a.tokenizer_id b.tokenizer_id,
  opt_eq_iff a.lora_id b.lora_id,
  ==_iff a.block_size b.block_size,
  opt_eq_iff a.salt b.salt,
)

context_eq-apart :
    (b c d : ModelContext) → context_eq b c ≡ false → context_eq b d ≡ true → context_eq c d ≡ false
context_eq-apart b c d e f = elim (Bool-cases (context_eq c d)) [
  | inr h ↦ h
  | inl h ↦
      let same = (context_eq_iff b d).0 f ∙ sym ((context_eq_iff c d).0 h) in
      absurd (false≢true (sym e ∙ (context_eq_iff b c).1 same))
]

pub table_of-put_table :
    (c d : ModelContext) (table : Table) (ts : List (ModelContext × Table))
    → table_of d (put_table c table ts) ≡ (if context_eq c d then some table else table_of d ts)
unfolding table_of put_table
table_of-put_table c d table [] = refl
table_of-put_table c d table ((b, old) ∷ ts) = elim (Bool-cases (context_eq b c)) [
  | inl e ↦
      let same : context_eq b d ≡ context_eq c d =
        ap (λ x. context_eq x d) ((context_eq_iff b c).0 e) in
      rw (e, same) (ground arith)
  | inr e ↦ elim (Bool-cases (context_eq b d)) [
    | inl f ↦ rw (e, f, context_eq-apart b c d e f, table_of) refl
    | inr f ↦ rw (e, table_of) (rw f (table_of-put_table c d table ts))
  ]
]

-- Every context has one table, and every table satisfies the predicate.
abbrev pub Tables : (Table → Type 0) → List (ModelContext × Table) → Type 0
Tables P [] = Unit {0}
Tables P ((c, table) ∷ ts) = (table_of c ts ≡ none) × P table × Tables P ts

pub put_table-Tables :
    (P : Table → Type 0) (c : ModelContext) (table : Table) (ts : List (ModelContext × Table))
    → P table
    → Tables P ts
    → Tables P (put_table c table ts)
unfolding put_table
put_table-Tables P c table [] p v = (unfold table_of in refl, p, tt)
put_table-Tables P c table ((b, old) ∷ ts) p v = elim (Bool-cases (context_eq b c)) [
  | inl e ↦ rw e (v.0, p, v.2)
  | inr e ↦ rw e (
    ground (arith, context_eq_iff b c, context_eq_iff c b, table_of-put_table c b table ts, v.0),
    v.1,
    put_table-Tables P c table ts p v.2,
  )
]

pub table_of-Tables :
    (P : Table → Type 0) (c : ModelContext) (table : Table) (ts : List (ModelContext × Table))
    → table_of c ts ≡ some table
    → Tables P ts
    → P table
unfolding table_of
table_of-Tables P c table [] e v = ground arith
table_of-Tables P c table ((b, old) ∷ ts) e v = elim (Bool-cases (context_eq b c)) [
  | inl h ↦ subst P (ground arith) v.1
  | inr h ↦ table_of-Tables P c table ts (ground arith) v.2
]
