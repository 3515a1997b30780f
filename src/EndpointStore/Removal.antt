-- ===== src/EndpointStore/Removal.antt =====
-- Removal from the order and the map of crates/quillcache-transfer-engine/src/endpoint_store.rs.
use quillcache.Prelude.{
  ℕ, zero, suc, ◌+◌, String, ◌≡◌, refl, sym, subst, ◌≢◌, inl, inr, none, some, List, [], ◌∷◌, ◌++◌,
  arith, str_eq, eq_iff, Bool-cases, length, get_elem?, remove_at, All, All-append,
}
use quillcache.StrMap.{StrMap, lookup, remove}
use quillcache.StrMap.Laws.{Distinct}
use quillcache.Strategy.Sort.{NoDup}

pub length-remove_at :
    {X : Type 0} (xs : List X) (i : ℕ) (x : X)
    → get_elem? xs i ≡ some x
    → length (remove_at xs i) + 1 ≡ length xs
length-remove_at [] i x e = ground arith
length-remove_at (y ∷ xs) zero x e = omega arith
length-remove_at (y ∷ xs) (suc i) x e = omega (arith, length-remove_at xs i x e)

pub remove_at-All :
    {X : Type 0} (P : X → Type 0) (xs : List X) (i : ℕ) → All P xs → All P (remove_at xs i)
remove_at-All P [] i h = tt
remove_at-All P (y ∷ xs) zero h = h.1
remove_at-All P (y ∷ xs) (suc i) h = (h.0, remove_at-All P xs i h.1)

pub get_elem?-All :
    {X : Type 0} (P : X → Type 0) (xs : List X) (i : ℕ) (x : X)
    → get_elem? xs i ≡ some x
    → All P xs
    → P x
get_elem?-All P [] i x e h = ground arith
get_elem?-All P (y ∷ xs) zero x e h = subst P (ground arith) h.0
get_elem?-All P (y ∷ xs) (suc i) x e h = get_elem?-All P xs i x e h.1

pub remove_at-NoDup : {X : Type 0} (xs : List X) (i : ℕ) → NoDup xs → NoDup (remove_at xs i)
remove_at-NoDup [] i d = tt
remove_at-NoDup (y ∷ xs) zero d = d.1
remove_at-NoDup (y ∷ xs) (suc i) d = (remove_at-All (λ z. y ≢ z) xs i d.0, remove_at-NoDup xs i d.1)

pub remove_at-apart :
    {X : Type 0} (xs : List X) (i : ℕ) (x : X)
    → get_elem? xs i ≡ some x
    → NoDup xs
    → All (λ y. x ≢ y) (remove_at xs i)
remove_at-apart [] i x e d = tt
remove_at-apart (y ∷ xs) zero x e d = subst (λ z. All (λ w. z ≢ w) xs) (ground arith) d.0
remove_at-apart (y ∷ xs) (suc i) x e d =
    ((λ same. get_elem?-All (λ z. y ≢ z) xs i x e d.0 (sym same)), remove_at-apart xs i x e d.1)

pub All-both :
    {X : Type 0} (P Q : X → Type 0) (xs : List X) → All P xs → All Q xs → All (λ x. P x × Q x) xs
All-both P Q [] p q = tt
All-both P Q (x ∷ xs) p q = ((p.0, q.0), All-both P Q xs p.1 q.1)

pub remove_absent :
    {V : Type 0} (k : String) (m : StrMap V) → lookup k m ≡ none → length (remove k m) ≡ length m
unfolding lookup remove
remove_absent k [] e = refl
remove_absent k ((j, w) ∷ m) e = ground (arith, remove_absent k m)

pub length-remove_once :
    {V : Type 0} (k : String) (v : V) (m : StrMap V)
    → Distinct m
    → lookup k m ≡ some v
    → length (remove k m) + 1 ≡ length m
unfolding lookup remove
length-remove_once k v [] d e = ground arith
length-remove_once k v ((j, w) ∷ m) d e = elim (Bool-cases (str_eq j k)) [
  | inr n ↦ rw n (omega (arith, length-remove_once k v m d.1 (ground arith)))
  | inl y ↦
      rw y
        (omega (arith, remove_absent k m (subst (λ x. lookup x m ≡ none) ((eq_iff j k).0 y) d.0)))
]

pub NoDup-append :
    {X : Type 0} (xs : List X) (x : X) → All (λ y. y ≢ x) xs → NoDup xs → NoDup (xs ++ x ∷ [])
NoDup-append [] x a d = (tt, tt)
NoDup-append (y ∷ xs) x a d =
    (All-append (λ z. y ≢ z) xs (x ∷ []) d.0 (a.0, tt), NoDup-append xs x a.1 d.1)
