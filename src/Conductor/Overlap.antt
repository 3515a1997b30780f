-- ===== src/Conductor/Overlap.antt =====
-- The prefix overlap that crates/quillcache-core/src/conductor.rs reports to the router.
use quillcache.Prelude.{
  ℕ, suc, ◌≤◌, String, ◌≡◌, refl, ap, ◌∙◌, inl, inr, Bool, true, false, Option, none, some, List,
  [], ◌∷◌, arith, str_eq, eq_iff, ◌==◌, if◌then◌else◌, Bool-cases, Option-cases, length, get_elem?,
  take, All,
}
use quillcache.StrMap.{lookup}
use quillcache.StrMap.Laws.{lookup-insert}
use quillcache.Conductor.{
  ModelContext, Table, Instances, PrefixCacheTable, contains, table_of, or_default, holds, walk,
  overlap_each, query_overlap,
}
use quillcache.Conductor.Cached.{cached}

abbrev Missing : (String → Bool) → Option String → Type 0
Missing has none = Unit {0}
Missing has (some p) = has p ≡ false

-- The first `n` are all there, and the next one, if there is one, is not.
abbrev pub Longest : (String → Bool) → List String → ℕ → Type 0
Longest has ps n =
    (n ≤ length ps) × All (λ p. has p ≡ true) (take n ps) × Missing has (get_elem? ps n)

walk-Longest :
    (table : Table) (i : String) (ps : List String)
    → Longest (λ p. holds p i table) ps (walk table i ps)
unfolding walk
walk-Longest table i [] = (omega arith, tt, tt)
walk-Longest table i (p ∷ ps) = elim (Bool-cases (holds p i table)) [
  | inl e ↦ let rest = walk-Longest table i ps in rw e (omega (arith, rest.0), (e, rest.1), rest.2)
  | inr e ↦ rw e (omega arith, tt, e)
]

lookup-overlap_each :
    (table : Table) (i : String) (rest : List String) (is : Instances)
    → lookup i (overlap_each table rest is)
      ≡ (if contains i is then some (suc (walk table i rest)) else none)
unfolding overlap_each
lookup-overlap_each table i rest [] = unfold lookup in refl
lookup-overlap_each table i rest (k ∷ is) = elim (Bool-cases (str_eq k i)) [
  | inl e ↦
      let same = (eq_iff k i).0 e in
      rw (lookup-insert k i (suc (walk table k rest)) (overlap_each table rest is), e)
        (ap (λ x. some (suc (walk table x rest))) same)
  | inr e ↦
      rw (lookup-insert k i (suc (walk table k rest)) (overlap_each table rest is), e)
        (lookup-overlap_each table i rest is)
]

-- The overlap of an instance as a reference: the hashes counted, and no entry for none.
abbrev pub Reported : Option ℕ → ℕ → Type 0
Reported found n = found ≡ (if n == 0 then none else some n)

lookup-query_overlap :
    (t : PrefixCacheTable) (c : ModelContext) (p : String) (ps : List String) (i : String)
    → lookup i (query_overlap c (p ∷ ps) t)
      ≡ (if cached t c p i then some (suc (walk (or_default (table_of c t.tables)) i ps)) else none)
unfolding query_overlap
lookup-query_overlap t c p ps i = elim (Option-cases (table_of c t.tables)) [
  | inl e ↦ rw (e, query_overlap) (unfold lookup in refl)
  | inr (table, e) ↦ elim (Option-cases (lookup p table)) [
    | inl f ↦ rw (e, query_overlap) (rw f (unfold lookup in refl))
    | inr (first, f) ↦ rw (e, query_overlap) (rw f (lookup-overlap_each table i ps first))
  ]
]

-- The overlap that a request's prefix has on an instance is the longest run of leading hashes that
-- the instance has cached in the request's context; an instance without the first one has no entry.
pub query_overlap-Longest :
    (t : PrefixCacheTable) (c : ModelContext) (prefix_hashes : List String) (i : String)
    → (n : ℕ) × Longest (λ p. cached t c p i) prefix_hashes n
      × Reported (lookup i (query_overlap c prefix_hashes t)) n
query_overlap-Longest t c [] i = (0, (omega arith, tt, tt), unfold lookup query_overlap in refl)
query_overlap-Longest t c (p ∷ ps) i =
    let table = or_default (table_of c t.tables) in
    (
      walk table i (p ∷ ps),
      walk-Longest table i (p ∷ ps),
      lookup-query_overlap t c p ps i ∙ counted table p i ps,
    )
  where
    counted :
        (table : Table) (p i : String) (ps : List String)
        → Reported
            (if holds p i table then some (suc (walk table i ps)) else none)
            (walk table i (p ∷ ps))
    counted table p i ps = unfold walk in ground arith
