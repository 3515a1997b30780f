-- ===== src/Strategy/Order.antt =====
-- The candidate segments of crates/quillcache-store/src/allocation_strategy.rs and their orders.
use quillcache.Prelude.{
  ℕ, zero, suc, ◌+◌, ◌≤◌, String, ◌≡◌, refl, ap, ◌∙◌, subst, ◌≢◌, inl, inr, true, false, Option,
  none, some, List, [], ◌∷◌, map, arith, str_eq, eq_iff, Bool-cases, length, get_elem?, set, keep,
  any, All, Picks, one_test,
}
use quillcache.Allocator.Interface.{BufferAllocator}
use quillcache.Strategy.{fits, candidates, prefer, preferred_later}
use quillcache.Strategy.Sort.{
  NoDup, All-weaken, sort_stable-All, length-sort_stable, sort_stable-NoDup,
}

module _ {A : Type 0} (B : BufferAllocator A) where
  -- The name of the segment at an index.
  abbrev pub name_at : List A → ℕ → Option String
  name_at as' i = elim (get_elem? as' i) [ none ↦ none | some a ↦ some (B.segment_name a) ]

  -- The segment at an index is there and fits.
  abbrev pub Fit : ℕ → List String → List A → ℕ → Type 0
  Fit size excluded as' k = (a : A) × (get_elem? as' k ≡ some a) × (fits B size excluded a ≡ true)

  abbrev FitFrom : ℕ → List String → ℕ → List A → ℕ → Type 0
  FitFrom size excluded i as' k = (j : ℕ) × (k ≡ i + j) × Fit size excluded as' j

  candidates-FitFrom :
      (size : ℕ) (excluded : List String) (i : ℕ) (as' : List A)
      → All (FitFrom size excluded i as') (candidates B size excluded i as')
  unfolding candidates
  candidates-FitFrom size excluded i [] = tt
  candidates-FitFrom size excluded i (a ∷ as') =
      let rest =
        All-weaken (FitFrom size excluded (suc i) as') (FitFrom size excluded i (a ∷ as'))
          (λ k h. (suc h.0, omega (arith, h.1), h.2)) (candidates B size excluded (suc i) as')
          (candidates-FitFrom size excluded (suc i) as') in
      elim (Bool-cases (fits B size excluded a)) [
        | inl e ↦ rw e ((0, omega arith, (a, refl, e)), rest)
        | inr e ↦ rw e rest
      ]

  candidates-NoDup :
      (size : ℕ) (excluded : List String) (i : ℕ) (as' : List A)
      → NoDup (candidates B size excluded i as')
  unfolding candidates
  candidates-NoDup size excluded i [] = tt
  candidates-NoDup size excluded i (a ∷ as') =
      let apart =
        All-weaken (FitFrom size excluded (suc i) as') (λ k. i ≢ k) (λ k h. omega (arith, h.1))
          (candidates B size excluded (suc i) as') (candidates-FitFrom size excluded (suc i) as') in
      elim (Bool-cases (fits B size excluded a)) [
        | inl e ↦ rw e (apart, candidates-NoDup size excluded (suc i) as')
        | inr e ↦ rw e (candidates-NoDup size excluded (suc i) as')
      ]

  -- A segment that is not excluded and has room.
  abbrev pub Roomy : ℕ → List String → A → Type 0
  Roomy size excluded a =
      (size ≤ B.largest_free_region a) × All (λ e. e ≢ B.segment_name a) excluded

  allowed-All :
      (name : String) (excluded : List String)
      → any (λ e. str_eq e name) excluded ≡ false
      → All (λ e. e ≢ name) excluded
  allowed-All name [] h = tt
  allowed-All name (e ∷ es) h =
      (ground (arith, eq_iff e name), allowed-All name es (ground (arith, eq_iff e name)))

  All-allowed :
      (name : String) (excluded : List String)
      → All (λ e. e ≢ name) excluded
      → any (λ e. str_eq e name) excluded ≡ false
  All-allowed name [] h = refl
  All-allowed name (e ∷ es) h = ground (arith, eq_iff e name, h.0, All-allowed name es h.1)

  pub fits-Roomy :
      (size : ℕ) (excluded : List String) (a : A)
      → fits B size excluded a ≡ true
      → Roomy size excluded a
  fits-Roomy size excluded a h =
      (ground arith, allowed-All (B.segment_name a) excluded (ground arith))

  Roomy-fits :
      (size : ℕ) (excluded : List String) (a : A)
      → Roomy size excluded a
      → fits B size excluded a ≡ true
  Roomy-fits size excluded a h = ground (arith, h.0, All-allowed (B.segment_name a) excluded h.1)

  -- The segments that the candidates are the indices of.
  abbrev pub roomy : ℕ → List String → List A → List A
  roomy size excluded as' = keep (fits B size excluded) as'

  pub roomy-Picks :
      (size : ℕ) (excluded : List String) (as' : List A)
      → Picks (Roomy size excluded) as' (roomy size excluded as')
  roomy-Picks size excluded [] = tt
  roomy-Picks size excluded (a ∷ as') =
      one_test (Roomy size excluded) a as' (fits B size excluded a)
        (keep (fits B size excluded) as') (fits-Roomy size excluded a) (Roomy-fits size excluded a)
        (roomy-Picks size excluded as')

  pub length-candidates :
      (size : ℕ) (excluded : List String) (i : ℕ) (as' : List A)
      → length (candidates B size excluded i as') ≡ length (roomy size excluded as')
  unfolding candidates
  length-candidates size excluded i [] = refl
  length-candidates size excluded i (a ∷ as') = elim (Bool-cases (fits B size excluded a)) [
    | inl y ↦ rw y (ap suc (length-candidates size excluded (suc i) as'))
    | inr n ↦ rw n (length-candidates size excluded (suc i) as')
  ]

  -- An order of the candidates: indices of segments that fit, none twice.
  abbrev pub Order : ℕ → List String → List A → List ℕ → Type 0
  Order size excluded as' is = NoDup is × All (Fit size excluded as') is

  pub candidates-Order :
      (size : ℕ) (excluded : List String) (as' : List A)
      → Order size excluded as' (candidates B size excluded 0 as')
  candidates-Order size excluded as' = (
    candidates-NoDup size excluded 0 as',
    All-weaken (FitFrom size excluded 0 as') (Fit size excluded as')
        (λ k h. subst (Fit size excluded as') (omega (arith, h.1)) h.2)
        (candidates B size excluded 0 as') (candidates-FitFrom size excluded 0 as'),
  )

  pub prefer-Order :
      (size : ℕ) (excluded : List String) (as' : List A) (preferred : Option String) (is : List ℕ)
      → Order size excluded as' is
      → Order size excluded as' (prefer B as' preferred is)
  unfolding prefer
  prefer-Order size excluded as' none is o = o
  prefer-Order size excluded as' (some pref) is o = (
    sort_stable-NoDup (preferred_later B as' pref) is o.0,
    sort_stable-All (preferred_later B as' pref) (Fit size excluded as') is o.1,
  )

  absent_name :
      (s : String) (as' : List A) (k : ℕ)
      → All (λ y. s ≢ y) (map B.segment_name as')
      → name_at as' k ≢ some s
  absent_name s [] k h q = ground arith
  absent_name s (c ∷ cs) zero h q = h.0 (ground arith)
  absent_name s (c ∷ cs) (suc k) h q = absent_name s cs k h.1 q

  pub name_at-injective :
      (as' : List A) (i j : ℕ) (s : String)
      → NoDup (map B.segment_name as')
      → name_at as' i ≡ some s
      → name_at as' j ≡ some s
      → i ≡ j
  name_at-injective [] i j s d e f = ground arith
  name_at-injective (a ∷ as') zero zero s d e f = refl
  name_at-injective (a ∷ as') zero (suc j) s d e f =
      absurd (absent_name (B.segment_name a) as' j d.0 (ground arith))
  name_at-injective (a ∷ as') (suc i) zero s d e f =
      absurd (absent_name (B.segment_name a) as' i d.0 (ground arith))
  name_at-injective (a ∷ as') (suc i) (suc j) s d e f = ap suc (name_at-injective as' i j s d.1 e f)

  pub length-prefer :
      (as' : List A) (preferred : Option String) (is : List ℕ)
      → length (prefer B as' preferred is) ≡ length is
  unfolding prefer
  length-prefer as' none is = refl
  length-prefer as' (some pref) is = length-sort_stable (preferred_later B as' pref) is

get_elem?-set_other :
    {X : Type 0} (xs : List X) (i j : ℕ) (v : X) → i ≢ j → get_elem? (set xs i v) j ≡ get_elem? xs j
get_elem?-set_other [] i j v n = refl
get_elem?-set_other (x ∷ xs) zero zero v n = absurd (n refl)
get_elem?-set_other (x ∷ xs) zero (suc j) v n = refl
get_elem?-set_other (x ∷ xs) (suc i) zero v n = refl
get_elem?-set_other (x ∷ xs) (suc i) (suc j) v n = get_elem?-set_other xs i j v (λ e. n (ap suc e))

-- Writing one segment leaves the others fit.
pub set-Fit :
    {A : Type 0} (B : BufferAllocator A) (size : ℕ) (excluded : List String) (as' : List A) (i : ℕ)
    (a : A) (is : List ℕ)
    → All (λ j. i ≢ j) is
    → All (Fit B size excluded as') is
    → All (Fit B size excluded (set as' i a)) is
set-Fit B size excluded as' i a [] n h = tt
set-Fit B size excluded as' i a (j ∷ is) n h = (
  (h.0.0, get_elem?-set_other as' i j a n.0 ∙ h.0.1, h.0.2),
  set-Fit B size excluded as' i a is n.1 h.1,
)
