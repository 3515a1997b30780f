-- ===== src/StrMap.antt =====
-- `HashMap<String, V>` as an association list: at most one entry of a key is visible, an insert
-- overwrites in place, and a remove drops every entry of the key. The order of the list stands for
-- the map's unspecified iteration order.
pub mod Laws
use quillcache.Prelude.{
  ℕ, zero, suc, ◌+◌, ◌-◌, ◌*◌, ◌/◌, ◌%◌, ◌^◌, ◌≤◌, ◌<◌, min, max, String, ◌≡◌, refl, sym, ap, ◌∙◌,
  subst, ◌≢◌, ◌↔◌, ◌⊎◌, inl, inr, Bool, true, false, not, ◌&&◌, ◌||◌, false≢true, Option, none,
  some, List, [], ◌∷◌, ◌++◌, map, arith, str_eq, eq_iff, ltb, leb, ◌==◌, if◌then◌else◌, ltb→lt,
  lt→ltb, leb→le, ==_iff, Bool-cases, Option-cases, length, get_elem?, set, get_or, take, drop,
  replicate, remove_at, keep, any, All, length-append, length-set, length-keep-le, length-map,
  length-take-le, take-append, drop-append, All-append, u64_mod, u64_max, u32_mod, add64, sub64,
  mul64, add32, sub32,
}

abbrev pub StrMap {ℓ} : Type ℓ → Type ℓ
StrMap V = List (String × V)

module _ {ℓ} {V : Type ℓ} where
  unfoldable pub lookup : String → StrMap V → Option V
  lookup key [] = none
  lookup key ((other, value) ∷ entries) =
      if str_eq other key then some value else lookup key entries

  unfoldable pub insert : String → V → StrMap V → StrMap V
  insert key value [] = (key, value) ∷ []
  insert key value ((other, old) ∷ entries) =
      if str_eq other key then (key, value) ∷ entries else (other, old) ∷ insert key value entries

  unfoldable pub remove : String → StrMap V → StrMap V
  remove key [] = []
  remove key ((other, old) ∷ entries) =
      let rest = remove key entries in if str_eq other key then rest else (other, old) ∷ rest

  abbrev pub is_some : Option V → Bool
  is_some none = false
  is_some (some value) = true

  abbrev pub contains_key : String → StrMap V → Bool
  contains_key key entries = is_some (lookup key entries)
