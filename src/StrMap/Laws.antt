-- ===== src/StrMap/Laws.antt =====
-- The map laws, in `if` form, and key distinctness.
use text.Mathlib.TextPositions.{eq_refl}
use quillcache.Prelude.{
  ◌+◌, ◌≤◌, String, ◌≡◌, refl, none, some, [], ◌∷◌, arith, str_eq, eq_iff, if◌then◌else◌, length,
}
use quillcache.StrMap.{StrMap, lookup, insert, remove}

module _ {ℓ} {V : Type ℓ} where
  pub lookup-insert :
      (key other : String) (value : V) (entries : StrMap V)
      → lookup other (insert key value entries)
        ≡ (if str_eq key other then some value else lookup other entries)
  unfolding lookup insert
  lookup-insert key other value [] = refl
  lookup-insert key other value ((head, old) ∷ entries) = ground (
    lookup-insert key other value entries,
    arith,
    eq_iff head other,
    eq_iff key other,
    eq_iff head key,
  )

  pub lookup-remove :
      (key other : String) (entries : StrMap V)
      → lookup other (remove key entries)
        ≡ (if str_eq key other then none else lookup other entries)
  unfolding lookup remove
  lookup-remove key other [] = ground arith
  lookup-remove key other ((head, old) ∷ entries) =
      ground (
        arith,
        eq_iff key other,
        eq_iff head key,
        eq_iff head other,
        lookup-remove key other entries,
      )

  pub lookup-insert_self :
      (key : String) (value : V) (entries : StrMap V)
      → lookup key (insert key value entries) ≡ some value
  lookup-insert_self key value entries = simp (lookup-insert, eq_refl)

  pub lookup-remove_self :
      (key : String) (entries : StrMap V) → lookup key (remove key entries) ≡ none
  lookup-remove_self key entries = simp (lookup-remove, eq_refl)

  -- An absent key is added as one more entry; a present one keeps the number of entries.
  pub length-insert_absent :
      (key : String) (value : V) (entries : StrMap V)
      → lookup key entries ≡ none
      → length (insert key value entries) ≡ length entries + 1
  unfolding lookup insert
  length-insert_absent key value [] h = refl
  length-insert_absent key value ((head, old) ∷ entries) h =
      ground (arith, length-insert_absent key value entries)

  pub length-insert_present :
      (key : String) (value old : V) (entries : StrMap V)
      → lookup key entries ≡ some old
      → length (insert key value entries) ≡ length entries
  unfolding lookup insert
  length-insert_present key value old [] h = cc
  length-insert_present key value old ((head, held) ∷ entries) h =
      ground (arith, length-insert_present key value old entries)

  pub length-remove-le :
      (key : String) (entries : StrMap V) → length (remove key entries) ≤ length entries
  unfolding remove
  length-remove-le key [] = omega arith
  length-remove-le key ((head, old) ∷ entries) = ground (arith, length-remove-le key entries)

  pub length-remove_present :
      (key : String) (value : V) (entries : StrMap V)
      → lookup key entries ≡ some value
      → length (remove key entries) + 1 ≤ length entries
  unfolding lookup remove
  length-remove_present key value [] h = cc
  length-remove_present key value ((head, old) ∷ entries) h =
      ground (arith, length-remove_present key value entries, length-remove-le key entries)

pub ruleset map_laws = (lookup-insert, lookup-remove, eq_refl)

module _ {ℓ} {V : Type ℓ} where
  -- No key has two entries, as in a `HashMap`.
  abbrev pub Distinct : StrMap V → Type ℓ
  Distinct [] = Unit
  Distinct ((key, value) ∷ entries) = (lookup key entries ≡ none) × Distinct entries

  pub insert-Distinct :
      (key : String) (value : V) (entries : StrMap V)
      → Distinct entries
      → Distinct (insert key value entries)
  unfolding insert
  insert-Distinct key value [] d = (unfold lookup in refl, tt)
  insert-Distinct key value ((other, old) ∷ entries) d = ground (
    arith,
    eq_iff other key,
    eq_iff key other,
    insert-Distinct key value entries d.1,
    lookup-insert key other value entries,
  )

  pub remove-Distinct :
      (key : String) (entries : StrMap V) → Distinct entries → Distinct (remove key entries)
  unfolding remove
  remove-Distinct key [] d = tt
  remove-Distinct key ((other, old) ∷ entries) d =
      ground (arith, remove-Distinct key entries d.1, lookup-remove key other entries)
