-- ===== src/Master/Eviction.antt =====
-- Which objects the eviction of crates/quillcache-store/src/master_service.rs may take, and in
-- which order.
use quillcache.Prelude.{
  ℕ, ◌*◌, min, String, ◌≡◌, refl, ◌∙◌, subst, inl, inr, Bool, false, ◌||◌, Option, some, List, [],
  ◌∷◌, arith, str_eq, eq_iff, ◌==◌, Bool-cases, Option-cases, All, u64_max,
}
use quillcache.StrMap.{StrMap, lookup}
use quillcache.StrMap.Laws.{lookup-remove, Distinct, remove-Distinct}
use quillcache.Allocator.Interface.{BufferAllocator}
use quillcache.Allocator.{AllocatedBuffer}
use quillcache.Types.{Result, ok, err, no_available_segment}
use quillcache.Master.{Master, Deps, ObjectMetadata}
use quillcache.Master.Evict.{
  victims_coldest_first, evict_one, evict_until, capacity, allocated, evict_if_needed, evict_to_fit,
  allocate_replicas, retry,
}
use quillcache.Master.Candidates.{
  Protected, EvictableKey, Kept, Kept-refl, Kept-trans, victims_coldest_first-Evictable,
}

module _ {A : Type 0} (B : BufferAllocator A) where
  evict_one-Kept : (key : String) (n : ℕ) (m : Master A) → Kept m (evict_one B key (n, m)).1
  unfolding evict_one
  evict_one-Kept key n m = elim (Option-cases (lookup key m.objects)) [
    | inl e ↦ rw (e, evict_one) (Kept-refl m)
    | inr (o, e) ↦
        rw (e, evict_one)
          (record {
            clock = ground arith;
            lease_ttl = ground arith;
            next_replica_id = ground arith;
            heartbeats = ground arith;
            segment_ttl = ground arith;
            owners = ground arith;
            distinct = λ d. ground (arith, remove-Distinct key m.objects d);
            shrinks = λ j. ground (arith, lookup-remove key j m.objects);
          })
  ]

  evict_one-lookup :
      (key j : String) (n : ℕ) (m : Master A)
      → str_eq key j ≡ false
      → lookup j (evict_one B key (n, m)).1.objects ≡ lookup j m.objects
  unfolding evict_one
  evict_one-lookup key j n m h = ground (arith, lookup-remove key j m.objects)

  evict_until-Kept :
      (enough : List A → Bool) (keys : List String) (n : ℕ) (m : Master A)
      → Kept m (evict_until B enough keys (n, m)).1
  unfolding evict_until
  evict_until-Kept enough [] n m = Kept-refl m
  evict_until-Kept enough (k ∷ keys) n m = elim (Bool-cases (enough m.allocators)) [
    | inl e ↦ rw (e, evict_until) (Kept-refl m)
    | inr e ↦
        rw (e, evict_until)
          (Kept-trans (evict_one-Kept k n m)
            (evict_until-Kept enough keys (evict_one B k (n, m)).0 (evict_one B k (n, m)).1))
  ]

  evict_until-lookup :
      (enough : List A → Bool) (keys : List String) (j : String) (n : ℕ) (m : Master A)
      → All (λ k. str_eq k j ≡ false) keys
      → lookup j (evict_until B enough keys (n, m)).1.objects ≡ lookup j m.objects
  unfolding evict_until
  evict_until-lookup enough [] j n m h = refl
  evict_until-lookup enough (k ∷ keys) j n m h = elim (Bool-cases (enough m.allocators)) [
    | inl e ↦ rw (e, evict_until) refl
    | inr e ↦
        rw (e, evict_until)
          (evict_until-lookup enough keys j (evict_one B k (n, m)).0 (evict_one B k (n, m)).1 h.1
            ∙ evict_one-lookup k j n m h.0)
  ]

-- A protected object's key is none of the candidates'.
Protected-apart :
    (now : ℕ) (m : StrMap ObjectMetadata) (j : String) (o : ObjectMetadata)
    → lookup j m ≡ some o
    → Protected now o
    → (ks : List String) → All (EvictableKey now m) ks
    → All (λ k. str_eq k j ≡ false) ks
Protected-apart now m j o e p [] h = tt
Protected-apart now m j o e p (k ∷ ks) h = (
  elim (Bool-cases (str_eq k j)) [
    | inr differs ↦ differs
    | inl same ↦ absurd (clash ((eq_iff k j).0 same))
  ],
  Protected-apart now m j o e p ks h.1,
)
  where
    clash : k ≡ j → ⊥
    clash s =
        let other : lookup j m ≡ some h.0.0 = subst (λ x. lookup x m ≡ some h.0.0) s h.0.1 in
        let one : o ≡ h.0.0 = ground arith in ground arith

module _ {A : Type 0} (D : Deps A) where
  evict_if_needed-Kept : (m : Master A) → Kept m (evict_if_needed D m).1
  unfolding evict_if_needed
  evict_if_needed-Kept m =
      elim (Bool-cases (
        capacity D.ops m.allocators == 0
        || D.below_watermark (allocated D.ops m.allocators) (capacity D.ops m.allocators))) [
          | inl e ↦ rw e (Kept-refl m)
          | inr e ↦ rw e (evict_until-Kept D.ops _ (victims_coldest_first m) 0 m)
        ]

  evict_to_fit-Kept : (needed : ℕ) (m : Master A) → Kept m (evict_to_fit D needed m).1
  unfolding evict_to_fit
  evict_to_fit-Kept needed m = evict_until-Kept D.ops _ (victims_coldest_first m) 0 m

  placed-Kept : (after : List A) (m : Master A) → Kept m (record m { allocators = after })
  placed-Kept after m = record {
    clock = refl;
    lease_ttl = refl;
    next_replica_id = refl;
    heartbeats = refl;
    segment_ttl = refl;
    owners = refl;
    distinct = λ d. d;
    shrinks = λ j. inl refl;
  }

  retry-Kept :
      (size n : ℕ) (preferred : Option String) (r : Result (List AllocatedBuffer)) (after : List A)
      (m : Master A)
      → Kept m (retry D size n preferred (r, after) m).1
  retry-Kept size n preferred (ok buffers) after m = placed-Kept after m
  retry-Kept size n preferred (err no_available_segment) after m =
      Kept-trans (placed-Kept after m) (
        Kept-trans (evict_to_fit-Kept (min (size * n) u64_max) (record m { allocators = after }))
          (placed-Kept _ _))
  retry-Kept size n preferred (err e) after m = placed-Kept after m

  pub allocate_replicas-Kept :
      (size n : ℕ) (preferred : Option String) (m : Master A)
      → Kept m (allocate_replicas D size n preferred m).1
  unfolding allocate_replicas
  allocate_replicas-Kept size n preferred m =
      let m' = (evict_if_needed D m).1 in
      let (r, after) = D.place m'.allocators size n preferred [] in
      Kept-trans (evict_if_needed-Kept m) (retry-Kept size n preferred r after m')

  apart :
      (m : Master A) (j : String) (o : ObjectMetadata)
      → Distinct m.objects
      → lookup j m.objects ≡ some o
      → Protected m.clock o
      → All (λ k. str_eq k j ≡ false) (victims_coldest_first m)
  apart m j o d e p =
      Protected-apart m.clock m.objects j o e p (victims_coldest_first m)
        (victims_coldest_first-Evictable m d)

  evict_if_needed-lookup :
      (m : Master A) (j : String) (o : ObjectMetadata)
      → Distinct m.objects
      → lookup j m.objects ≡ some o
      → Protected m.clock o
      → lookup j (evict_if_needed D m).1.objects ≡ some o
  unfolding evict_if_needed
  evict_if_needed-lookup m j o d e p =
      elim (Bool-cases (
        capacity D.ops m.allocators == 0
        || D.below_watermark (allocated D.ops m.allocators) (capacity D.ops m.allocators))) [
          | inl h ↦ rw h e
          | inr h ↦
              rw h
                (evict_until-lookup D.ops _ (victims_coldest_first m) j 0 m (apart m j o d e p) ∙ e)
        ]

  evict_to_fit-lookup :
      (needed : ℕ) (m : Master A) (j : String) (o : ObjectMetadata)
      → Distinct m.objects
      → lookup j m.objects ≡ some o
      → Protected m.clock o
      → lookup j (evict_to_fit D needed m).1.objects ≡ some o
  unfolding evict_to_fit
  evict_to_fit-lookup needed m j o d e p =
      evict_until-lookup D.ops _ (victims_coldest_first m) j 0 m (apart m j o d e p) ∙ e

  retry-lookup :
      (size n : ℕ) (preferred : Option String) (r : Result (List AllocatedBuffer)) (after : List A)
      (m : Master A) (j : String) (o : ObjectMetadata)
      → Distinct m.objects
      → lookup j m.objects ≡ some o
      → Protected m.clock o
      → lookup j (retry D size n preferred (r, after) m).1.objects ≡ some o
  retry-lookup size n preferred (ok buffers) after m j o d e p = e
  retry-lookup size n preferred (err no_available_segment) after m j o d e p =
      evict_to_fit-lookup (min (size * n) u64_max) (record m { allocators = after }) j o d e p
  retry-lookup size n preferred (err c) after m j o d e p = e

  -- Making room for a Put, by the watermark and on exhaustion, never takes an object that is hard
  -- pinned or under a read lease, and changes no field of one.
  pub allocate_replicas-protects :
      (size n : ℕ) (preferred : Option String) (m : Master A) (j : String) (o : ObjectMetadata)
      → Distinct m.objects
      → lookup j m.objects ≡ some o
      → Protected m.clock o
      → lookup j (allocate_replicas D size n preferred m).1.objects ≡ some o
  unfolding allocate_replicas
  allocate_replicas-protects size n preferred m j o d e p =
      let m' = (evict_if_needed D m).1 in
      let (r, after) = D.place m'.allocators size n preferred [] in
      let k = evict_if_needed-Kept m in
      retry-lookup size n preferred r after m' j o (k.distinct d)
        (evict_if_needed-lookup m j o d e p) (rw k.clock p)
