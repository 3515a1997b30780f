-- ===== src/Strategy/Sort.antt =====
-- The stable sort of crates/quillcache-store/src/allocation_strategy.rs.
use quillcache.Prelude.{
  ℕ, zero, suc, ◌≤◌, ◌≡◌, refl, sym, ap, ◌∙◌, ◌≢◌, inl, inr, Bool, List, [], ◌∷◌, arith, Bool-cases,
  length, take, All,
}
use quillcache.Strategy.{insert_stable, sort_stable}

-- No element occurs twice.
abbrev pub NoDup : {X : Type 0} → List X → Type 0
NoDup [] = Unit {0}
NoDup (x ∷ xs) = All (λ y. x ≢ y) xs × NoDup xs

pub All-weaken :
    {X : Type 0} (P Q : X → Type 0) → ((x : X) → P x → Q x) → (xs : List X) → All P xs → All Q xs
All-weaken P Q f [] h = tt
All-weaken P Q f (x ∷ xs) h = (f x h.0, All-weaken P Q f xs h.1)

module _ {X : Type 0} (before : X → X → Bool) where
  insert_stable-All :
      (P : X → Type 0) (x : X) (xs : List X) → P x → All P xs → All P (insert_stable before x xs)
  unfolding insert_stable
  insert_stable-All P x [] p h = (p, tt)
  insert_stable-All P x (y ∷ ys) p h = elim (Bool-cases (before x y)) [
    | inl e ↦ rw e (h.0, insert_stable-All P x ys p h.1)
    | inr e ↦ rw e (p, h)
  ]

  pub sort_stable-All : (P : X → Type 0) (xs : List X) → All P xs → All P (sort_stable before xs)
  unfolding sort_stable
  sort_stable-All P [] h = tt
  sort_stable-All P (x ∷ xs) h =
      insert_stable-All P x (sort_stable before xs) h.0 (sort_stable-All P xs h.1)

  insert_stable-NoDup :
      (x : X) (xs : List X) → All (λ y. x ≢ y) xs → NoDup xs → NoDup (insert_stable before x xs)
  unfolding insert_stable
  insert_stable-NoDup x [] a d = (tt, tt)
  insert_stable-NoDup x (y ∷ ys) a d = elim (Bool-cases (before x y)) [
    | inl e ↦ rw e (
      insert_stable-All (λ z. y ≢ z) x ys (λ s. a.0 (sym s)) d.0,
      insert_stable-NoDup x ys a.1 d.1,
    )
    | inr e ↦ rw e (a, d)
  ]

  pub sort_stable-NoDup : (xs : List X) → NoDup xs → NoDup (sort_stable before xs)
  unfolding sort_stable
  sort_stable-NoDup [] d = tt
  sort_stable-NoDup (x ∷ xs) d =
      insert_stable-NoDup x (sort_stable before xs) (sort_stable-All (λ y. x ≢ y) xs d.0)
        (sort_stable-NoDup xs d.1)

  length-insert_stable :
      (x : X) (xs : List X) → length (insert_stable before x xs) ≡ suc (length xs)
  unfolding insert_stable
  length-insert_stable x [] = refl
  length-insert_stable x (y ∷ ys) = ground (arith, length-insert_stable x ys)

  pub length-sort_stable : (xs : List X) → length (sort_stable before xs) ≡ length xs
  unfolding sort_stable
  length-sort_stable [] = refl
  length-sort_stable (x ∷ xs) =
      length-insert_stable x (sort_stable before xs) ∙ ap suc (length-sort_stable xs)

pub take-All : {X : Type 0} (P : X → Type 0) (n : ℕ) (xs : List X) → All P xs → All P (take n xs)
take-All P zero xs h = tt
take-All P (suc n) [] h = tt
take-All P (suc n) (x ∷ xs) h = (h.0, take-All P n xs h.1)

pub take-NoDup : {X : Type 0} (n : ℕ) (xs : List X) → NoDup xs → NoDup (take n xs)
take-NoDup zero xs d = tt
take-NoDup (suc n) [] d = tt
take-NoDup (suc n) (x ∷ xs) d = (take-All (λ y. x ≢ y) n xs d.0, take-NoDup n xs d.1)

pub length-take : {X : Type 0} (n : ℕ) (xs : List X) → n ≤ length xs → length (take n xs) ≡ n
length-take zero xs h = refl
length-take (suc n) [] h = omega arith
length-take (suc n) (x ∷ xs) h = ap suc (length-take n xs (omega arith))
