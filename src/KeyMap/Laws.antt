-- ===== src/KeyMap/Laws.antt =====
-- Laws of maps: lookups in `if` form, distinct keys, and totals over the entries.
use quillcache.Prelude.{
  ℕ, ◌+◌, ◌≡◌, refl, ap, ◌∙◌, subst, inl, inr, true, Option, none, some, [], ◌∷◌, arith,
  if◌then◌else◌, Bool-cases,
}
use quillcache.KeyMap.{KeyEq, KeyMap, find, put, delete}

beq_refl : {K : Type 0} ⦃e : KeyEq K⦄ (k : K) → e.beq k k ≡ true
beq_refl ⦃e⦄ k = (e.beq_iff k k).1 refl

-- What one optional value adds to a sum.
abbrev pub weight : {V : Type 0} → (V → ℕ) → Option V → ℕ
weight f none = 0
weight f (some v) = f v

module _ {K V : Type 0} ⦃e : KeyEq K⦄ where
  pub find-put :
      (k j : K) (v : V) (m : KeyMap K V)
      → find j (put k v m) ≡ (if e.beq k j then some v else find j m)
  unfolding find put
  find-put k j v [] = refl
  find-put k j v ((i, w) ∷ m) =
      ground (find-put k j v m, e.beq_iff k j, e.beq_iff i k, e.beq_iff i j, arith)

  pub find-delete :
      (k j : K) (m : KeyMap K V) → find j (delete k m) ≡ (if e.beq k j then none else find j m)
  unfolding find delete
  find-delete k j [] = ground arith
  find-delete k j ((i, w) ∷ m) =
      ground (find-delete k j m, e.beq_iff k j, e.beq_iff i k, e.beq_iff i j, arith)

  pub find-put_self : (k : K) (v : V) (m : KeyMap K V) → find k (put k v m) ≡ some v
  find-put_self k v m = find-put k k v m ∙ ap (λ b. if b then some v else find k m) (beq_refl k)

  pub find-delete_self : (k : K) (m : KeyMap K V) → find k (delete k m) ≡ none
  find-delete_self k m = find-delete k k m ∙ ap (λ b. if b then none else find k m) (beq_refl k)

  pub find-first : (k : K) (v : V) (m : KeyMap K V) → find k ((k, v) ∷ m) ≡ some v
  unfolding find
  find-first k v m = ap (λ b. if b then some v else find k m) (beq_refl k)

  pub find-later :
      (j k : K) (w v : V) (m : KeyMap K V)
      → find j m ≡ none
      → find k m ≡ some v
      → find k ((j, w) ∷ m) ≡ some v
  unfolding find
  find-later j k w v m g f = elim (Bool-cases (e.beq j k)) [
    | inl y ↦ absurd (ground (arith, subst (λ x. find x m ≡ none) ((e.beq_iff j k).0 y) g))
    | inr n ↦ ap (λ b. if b then some w else find k m) n ∙ f
  ]

  -- No key has two entries.
  abbrev pub Unique : KeyMap K V → Type 0
  Unique [] = Unit {0}
  Unique ((k, v) ∷ m) = (find k m ≡ none) × Unique m

  pub put-Unique : (k : K) (v : V) (m : KeyMap K V) → Unique m → Unique (put k v m)
  unfolding put
  put-Unique k v [] d = (unfold find in refl, tt)
  put-Unique k v ((j, w) ∷ m) d =
      ground (arith, e.beq_iff j k, e.beq_iff k j, put-Unique k v m d.1, find-put k j v m)

  pub delete-Unique : (k : K) (m : KeyMap K V) → Unique m → Unique (delete k m)
  unfolding delete
  delete-Unique k [] d = tt
  delete-Unique k ((j, w) ∷ m) d = ground (arith, delete-Unique k m d.1, find-delete k j m)

  -- A sum over the values.
  unfoldable pub total : (V → ℕ) → KeyMap K V → ℕ
  total f [] = 0
  total f ((k, v) ∷ m) = f v + total f m

  pub total-put :
      (f : V → ℕ) (k : K) (v : V) (m : KeyMap K V)
      → total f (put k v m) + weight f (find k m) ≡ total f m + f v
  unfolding total put find
  total-put f k v [] = omega arith
  total-put f k v ((j, w) ∷ m) = ground (arith, total-put f k v m)

  delete_absent : (k : K) (m : KeyMap K V) → find k m ≡ none → delete k m ≡ m
  unfolding delete find
  delete_absent k [] h = refl
  delete_absent k ((j, w) ∷ m) h = ground (arith, delete_absent k m)

  pub total-delete :
      (f : V → ℕ) (k : K) (m : KeyMap K V)
      → Unique m
      → total f (delete k m) + weight f (find k m) ≡ total f m
  unfolding total delete find
  total-delete f k [] d = omega arith
  total-delete f k ((j, w) ∷ m) d = elim (Bool-cases (e.beq j k)) [
    | inr n ↦ rw n (omega (arith, total-delete f k m d.1))
    | inl y ↦
        let absent : find k m ≡ none = subst (λ x. find x m ≡ none) ((e.beq_iff j k).0 y) d.0 in
        rw (y, delete_absent k m absent) (omega arith)
  ]
