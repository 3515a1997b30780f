-- ===== src/KeyMap.antt =====
-- A `HashMap` whose keys are not texts, as an association list over keys that can be compared.
pub mod Laws
use quillcache.Prelude.{
  ℕ, zero, suc, ◌+◌, ◌-◌, ◌*◌, ◌/◌, ◌%◌, ◌^◌, ◌≤◌, ◌<◌, min, max, String, ◌≡◌, refl, sym, ap, ◌∙◌,
  subst, ◌≢◌, ◌↔◌, ◌⊎◌, inl, inr, Bool, true, false, not, ◌&&◌, ◌||◌, false≢true, Option, none,
  some, List, [], ◌∷◌, ◌++◌, map, arith, str_eq, eq_iff, ltb, leb, ◌==◌, if◌then◌else◌, ltb→lt,
  lt→ltb, leb→le, ==_iff, Bool-cases, Option-cases, length, get_elem?, set, get_or, take, drop,
  replicate, remove_at, keep, any, All, length-append, length-set, length-keep-le, length-map,
  length-take-le, take-append, drop-append, All-append, u64_mod, u64_max, u32_mod, add64, sub64,
  mul64, add32, sub32,
}

-- The `Eq` of a key type.
pub record KeyEq (K : Type 0) : Type 0 where
  pub beq : K → K → Bool
  pub beq_iff : (a b : K) → (beq a b ≡ true) ↔ (a ≡ b)

instance abbrev pub nat_key : KeyEq ℕ
nat_key = record { beq = ◌==◌; beq_iff = ==_iff }

abbrev pub KeyMap : Type 0 → Type 0 → Type 0
KeyMap K V = List (K × V)

module _ {K V : Type 0} ⦃e : KeyEq K⦄ where
  unfoldable pub find : K → KeyMap K V → Option V
  find k [] = none
  find k ((j, v) ∷ m) = if e.beq j k then some v else find k m

  unfoldable pub put : K → V → KeyMap K V → KeyMap K V
  put k v [] = (k, v) ∷ []
  put k v ((j, w) ∷ m) = let rest = put k v m in if e.beq j k then (k, v) ∷ m else (j, w) ∷ rest

  unfoldable pub delete : K → KeyMap K V → KeyMap K V
  delete k [] = []
  delete k ((j, w) ∷ m) = let rest = delete k m in if e.beq j k then rest else (j, w) ∷ rest
