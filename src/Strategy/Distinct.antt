-- ===== src/Strategy/Distinct.antt =====
-- Where the strategies of crates/quillcache-store/src/allocation_strategy.rs place replicas.
use quillcache.Prelude.{
  ℕ, zero, suc, ◌≤◌, ◌<◌, String, ◌≡◌, refl, sym, ap, ◌∙◌, subst, ◌≢◌, ◌⊎◌, inl, inr, Bool, Option,
  some, List, [], ◌∷◌, map, arith, ltb, Bool-cases, Option-cases, length, get_elem?, set, take, All,
  Picks,
}
use quillcache.Types.{Result, no_available_segment, err, ok, Result-cases}
use quillcache.Allocator.{AllocatedBuffer}
use quillcache.Allocator.Interface.{BufferAllocator, Laws}
use quillcache.Strategy.{
  sort_stable, candidates, place_each, place, later_ratio, allocate_random, allocate_free_ratio,
}
use quillcache.Strategy.Sort.{
  NoDup, sort_stable-All, sort_stable-NoDup, length-sort_stable, take-All, take-NoDup, length-take,
}
use quillcache.Strategy.Order.{
  Roomy, fits-Roomy, roomy, roomy-Picks, length-candidates, name_at, Fit, Order, candidates-Order,
  prefer-Order, length-prefer, set-Fit, name_at-injective,
}

module _ {A : Type 0} (B : BufferAllocator A) (laws : Laws B) where
  name_at-set :
      (as' : List A) (i j : ℕ) (a a' : A)
      → get_elem? as' i ≡ some a
      → B.segment_name a' ≡ B.segment_name a
      → name_at B (set as' i a') j ≡ name_at B as' j
  name_at-set [] i j a a' e n = refl
  name_at-set (x ∷ xs) zero zero a a' e n = ground arith
  name_at-set (x ∷ xs) zero (suc j) a a' e n = refl
  name_at-set (x ∷ xs) (suc i) zero a a' e n = refl
  name_at-set (x ∷ xs) (suc i) (suc j) a a' e n = name_at-set xs i j a a' e n

  -- The buffers stand, in order, on the segments at the indices, and have the size asked for.
  abbrev pub Placed : ℕ → List A → List ℕ → List AllocatedBuffer → Type 0
  Placed size as' [] [] = Unit {0}
  Placed size as' [] (b ∷ bs) = ⊥
  Placed size as' (i ∷ is) [] = ⊥
  Placed size as' (i ∷ is) (b ∷ bs) =
      (name_at B as' i ≡ some b.segment_name) × (b.size ≡ size) × Placed size as' is bs

  Placed-same :
      (size : ℕ) (as' cs : List A) (is : List ℕ) (bs : List AllocatedBuffer)
      → ((j : ℕ) → name_at B as' j ≡ name_at B cs j)
      → Placed size as' is bs
      → Placed size cs is bs
  Placed-same size as' cs [] [] f h = tt
  Placed-same size as' cs [] (b ∷ bs) f h = h
  Placed-same size as' cs (i ∷ is) [] f h = h
  Placed-same size as' cs (i ∷ is) (b ∷ bs) f h =
      (sym (f i) ∙ h.0, h.1, Placed-same size as' cs is bs f h.2)

  place_each-Placed :
      (size : ℕ) (is : List ℕ) (as' : List A) (bs : List AllocatedBuffer)
      → (place_each B size is as').0 ≡ ok bs
      → Placed size as' is bs
  unfolding place_each
  place_each-Placed size [] as' [] e = tt
  place_each-Placed size [] as' (b ∷ bs) e = ground arith
  place_each-Placed size (i ∷ is) as' bs e = elim (Option-cases (get_elem? as' i)) [
    | inl g ↦ ground arith
    | inr (a, g) ↦ elim (Option-cases (B.allocate a size)) [
      | inl q ↦ ground arith
      | inr ((b, a'), q) ↦ elim (Result-cases (place_each B size is (set as' i a')).0) [
        | inr (c, r) ↦ ground arith
        | inl (cs, r) ↦
            let same : b ∷ cs ≡ bs = ground arith in
            let own = laws.buffer_allocate a a' size b q in
            subst (Placed size as' (i ∷ is)) same (
              ground (arith, own.0),
              own.1,
              Placed-same size (set as' i a') as' is cs
                  (λ j. name_at-set as' i j a a' g (laws.name_allocate a a' size b q))
                  (place_each-Placed size is (set as' i a') cs r),
            )
      ]
    ]
  ]

  -- A buffer of the size, on a segment that had room for it and is not excluded.
  abbrev pub Hosted : ℕ → List String → List A → AllocatedBuffer → Type 0
  Hosted size excluded as' b =
      (b.size ≡ size)
      × (k : ℕ) × (name_at B as' k ≡ some b.segment_name)
      × (a : A) × (get_elem? as' k ≡ some a)
      × Roomy B size excluded a

  Placed-Hosted :
      (size : ℕ) (excluded : List String) (as' : List A) (is : List ℕ) (bs : List AllocatedBuffer)
      → All (Fit B size excluded as') is
      → Placed size as' is bs
      → All (Hosted size excluded as') bs
  Placed-Hosted size excluded as' [] [] o h = tt
  Placed-Hosted size excluded as' [] (b ∷ bs) o h = absurd h
  Placed-Hosted size excluded as' (i ∷ is) [] o h = tt
  Placed-Hosted size excluded as' (i ∷ is) (b ∷ bs) o h = (
    (h.1, i, h.0, o.0.0, o.0.1, fits-Roomy B size excluded o.0.0 o.0.2),
    Placed-Hosted size excluded as' is bs o.1 h.2,
  )

  Placed-length :
      (size : ℕ) (as' : List A) (is : List ℕ) (bs : List AllocatedBuffer)
      → Placed size as' is bs
      → length bs ≡ length is
  Placed-length size as' [] [] h = refl
  Placed-length size as' [] (b ∷ bs) h = absurd h
  Placed-length size as' (i ∷ is) [] h = absurd h
  Placed-length size as' (i ∷ is) (b ∷ bs) h = ap suc (Placed-length size as' is bs h.2)

  abbrev pub names_of : List AllocatedBuffer → List String
  names_of bs = map (λ b. b.segment_name) bs

  Placed-apart :
      (size : ℕ) (as' : List A) (i : ℕ) (s : String) (is : List ℕ) (bs : List AllocatedBuffer)
      → NoDup (map B.segment_name as')
      → name_at B as' i ≡ some s
      → All (λ j. i ≢ j) is
      → Placed size as' is bs
      → All (λ t. s ≢ t) (names_of bs)
  Placed-apart size as' i s [] [] d e a h = tt
  Placed-apart size as' i s [] (b ∷ bs) d e a h = absurd h
  Placed-apart size as' i s (j ∷ is) [] d e a h = tt
  Placed-apart size as' i s (j ∷ is) (b ∷ bs) d e a h = (
    (λ same. a.0 (name_at-injective B as' i j s d e (h.0 ∙ ap some (sym same)))),
    Placed-apart size as' i s is bs d e a.1 h.2,
  )

  Placed-NoDup :
      (size : ℕ) (as' : List A) (is : List ℕ) (bs : List AllocatedBuffer)
      → NoDup (map B.segment_name as')
      → NoDup is
      → Placed size as' is bs
      → NoDup (names_of bs)
  Placed-NoDup size as' [] [] d n h = tt
  Placed-NoDup size as' [] (b ∷ bs) d n h = absurd h
  Placed-NoDup size as' (i ∷ is) [] d n h = tt
  Placed-NoDup size as' (i ∷ is) (b ∷ bs) d n h = (
    Placed-apart size as' i b.segment_name is bs d h.0 n.0 h.2,
    Placed-NoDup size as' is bs d n.1 h.2,
  )

  -- Replicas on as many different segments as asked for, each with room and not excluded.
  abbrev pub Spread : ℕ → ℕ → List String → List A → List AllocatedBuffer → Type 0
  Spread size n excluded as' bs =
      (length bs ≡ n) × NoDup (names_of bs) × All (Hosted size excluded as') bs

  -- Every segment of the order has room, so nothing is refused.
  place_each-ok :
      (size : ℕ) (excluded : List String) (is : List ℕ) (as' : List A)
      → 0 < size
      → NoDup is
      → All (Fit B size excluded as') is
      → (bs : List AllocatedBuffer) × ((place_each B size is as').0 ≡ ok bs)
  unfolding place_each
  place_each-ok size excluded [] as' z d f = ([], refl)
  place_each-ok size excluded (i ∷ is) as' z d (f, fs) =
      let (b, a', e) = laws.allocates_fitting f.0 size z (ground (arith, f.2)) in
      let (bs, r) =
        place_each-ok size excluded is (set as' i a') z d.1
          (set-Fit B size excluded as' i a' is d.0 fs) in
      (b ∷ bs, ground (arith, f.1))

  -- Fewer segments with room than replicas are refused, and nothing changes; with enough, the
  -- replicas are placed. The segments with room are counted whatever the candidates are.
  abbrev pub Outcome :
      ℕ → ℕ → List String → List A → Result (List AllocatedBuffer) × List A → Type 0
  Outcome size n excluded as' r =
      (with_room : List A) × Picks (Roomy B size excluded) as' with_room
      × (((length with_room < n) × (r ≡ (err no_available_segment, as')))
          ⊎ ((n ≤ length with_room)
              × (bs : List AllocatedBuffer) × (r.0 ≡ ok bs)
              × Spread size n excluded as' bs))

  place-Outcome :
      (size n : ℕ) (excluded : List String) (as' : List A) (is : List ℕ)
      → NoDup (map B.segment_name as')
      → 0 < size
      → Order B size excluded as' is
      → length is ≡ length (candidates B size excluded 0 as')
      → Outcome size n excluded as' (place B as' is size n)
  unfolding place
  place-Outcome size n excluded as' is d z o l = (
    roomy B size excluded as',
    roomy-Picks B size excluded as',
    elim (Bool-cases (ltb (length is) n)) [
      | inl short ↦ inl (ground (arith, l, length-candidates B size excluded 0 as'), rw short refl)
      | inr enough ↦
          let fit = take-All (Fit B size excluded as') n is o.1 in
          let apart = take-NoDup n is o.0 in
          let (bs, e) = place_each-ok size excluded (take n is) as' z apart fit in
          let h = place_each-Placed size (take n is) as' bs e in
          inr (
            ground (arith, l, length-candidates B size excluded 0 as'),
            bs,
            rw enough e,
            (
              Placed-length size as' (take n is) bs h ∙ length-take n is (ground arith),
              Placed-NoDup size as' (take n is) bs d apart h,
              Placed-Hosted size excluded as' (take n is) bs fit h,
            ),
          )
    ],
  )

  -- Where the segments have different names and the size is not zero, either strategy refuses exactly
  -- when fewer segments than replicas have room for the size and are not excluded, and then changes
  -- nothing. Otherwise it answers as many
  -- buffers of the size as asked for, on segments that are all different, that had room for the
  -- size and that are not excluded. This holds however the free ratios compare.
  pub allocate-Outcome :
      (freer : A → A → Bool) (size n : ℕ) (preferred : Option String) (excluded : List String)
      (as' : List A)
      → NoDup (map B.segment_name as')
      → 0 < size
      → Outcome size n excluded as' (allocate_random B as' size n preferred excluded)
        × Outcome size n excluded as' (allocate_free_ratio B freer as' size n preferred excluded)
  unfolding allocate_random allocate_free_ratio
  allocate-Outcome freer size n preferred excluded as' d z =
      let cs = candidates B size excluded 0 as' in
      let by_ratio = later_ratio freer as' in
      let o = candidates-Order B size excluded as' in
      let sorted : Order B size excluded as' (sort_stable by_ratio cs) = (
        sort_stable-NoDup by_ratio cs o.0,
        sort_stable-All by_ratio (Fit B size excluded as') cs o.1,
      ) in
      (
        place-Outcome size n excluded as' _ d z (prefer-Order B size excluded as' preferred _ o)
            (length-prefer B as' preferred cs),
        place-Outcome size n excluded as' _ d z
            (prefer-Order B size excluded as' preferred _ sorted)
            (length-prefer B as' preferred (sort_stable by_ratio cs)
              ∙ length-sort_stable by_ratio cs),
      )
