-- ===== src/Master/Guard.antt =====
-- What the identity-guarded read of crates/quillcache-store/src/master_service.rs answers.
use quillcache.Prelude.{
  ℕ, String, ◌≡◌, refl, sym, subst, ◌≢◌, ◌⊎◌, inl, inr, Bool, true, false, false≢true, Option, none,
  some, List, [], ◌∷◌, arith, eq_iff, if◌then◌else◌, keep, All, Picks, one_test, add64,
}
use quillcache.Identity.{IdentityScope, ReuseViolation, reuse_violation_against}
use quillcache.Identity.Guard.{reuse_violation_against-eq-none_iff}
use quillcache.StrMap.{StrMap, lookup, insert}
use quillcache.StrMap.Laws.{lookup-insert}
use quillcache.Types.{ok, err, object_not_found, object_not_ready, unsafe_reuse}
use quillcache.Replica.{Replica, ReplicaList, is_complete}
use quillcache.Master.{Master, Deps, ObjectMetadata}
use quillcache.Master.Objects.{served, readable, touch, read, get_replica_list}

-- A replica that a read may hand out.
abbrev pub Servable : ℕ → ℕ → StrMap ℕ → Replica → Type 0
Servable ttl now hb r = (is_complete r ≡ true) × (served ttl now hb r ≡ true)

module _ {X : Type 0} (P : X → Type 0) (x : X) (xs : List X) where
  two_tests :
      (b : Bool) (q : X → Bool) (rest : List X)
      → (b ≡ true → q x ≡ true → P x)
      → (P x → (b ≡ true) × (q x ≡ true))
      → Picks P xs (keep q rest)
      → Picks P (x ∷ xs) (keep q (if b then x ∷ rest else rest))
  two_tests true q rest sound only h =
      one_test P x xs (q x) (keep q rest) (sound refl) (λ p. (only p).1) h
  two_tests false q rest sound only h = inr ((λ p. false≢true (only p).0), h)

readable-Picks :
    (ttl now : ℕ) (hb : StrMap ℕ) (rs : ReplicaList)
    → Picks (Servable ttl now hb) rs (readable ttl now hb rs)
unfolding readable
readable-Picks ttl now hb [] = tt
readable-Picks ttl now hb (r ∷ rs) =
    two_tests (Servable ttl now hb) r rs (is_complete r) (served ttl now hb) (keep is_complete rs)
      (λ c y. (c, y)) (λ h. h) (readable-Picks ttl now hb rs)

Picks-none : {X : Type 0} (P : X → Type 0) (xs : List X) → Picks P xs [] → All (λ x. P x → ⊥) xs
Picks-none P [] h = tt
Picks-none P (x ∷ xs) (inl (p, rest, e, h)) = cc
Picks-none P (x ∷ xs) (inr (n, h)) = (n, Picks-none P xs h)

keep-All : {X : Type 0} (p : X → Bool) (xs : List X) → All (λ x. p x ≡ true) (keep p xs)
keep-All p [] = tt
keep-All p (x ∷ xs) = ground (arith, keep-All p xs)

keep-All_both :
    {X : Type 0} (p q : X → Bool) (xs : List X)
    → All (λ x. p x ≡ true) xs
    → All (λ x. (p x ≡ true) × (q x ≡ true)) (keep q xs)
keep-All_both p q [] h = tt
keep-All_both p q (x ∷ xs) h = ground (arith, keep-All_both p q xs h.1)

pub readable-Servable :
    (ttl now : ℕ) (hb : StrMap ℕ) (rs : ReplicaList)
    → All (Servable ttl now hb) (readable ttl now hb rs)
unfolding readable
readable-Servable ttl now hb rs =
    keep-All_both is_complete (served ttl now hb) (keep is_complete rs) (keep-All is_complete rs)

-- What a successful read shows of the object and does to the master.
pub record Served {A : Type 0} (m : Master A) (key : String) (requester : IdentityScope)
    (rs : List Replica) (m' : Master A) : Type 0 where
  pub object : ObjectMetadata
  pub found : lookup key m.objects ≡ some object
  pub same_identity : object.identity ≡ requester
  pub answer : rs ≡ readable m.segment_ttl m.clock m.segment_heartbeat object.replicas
  pub all_servable : Picks (Servable m.segment_ttl m.clock m.segment_heartbeat) object.replicas rs
  pub servable : All (Servable m.segment_ttl m.clock m.segment_heartbeat) rs
  pub leased :
      lookup key m'.objects
      ≡ some (record object { last_access = m.clock; lease_until = add64 m.clock m.lease_ttl })
  pub others : (j : String) → j ≢ key → lookup j m'.objects ≡ lookup j m.objects
  pub kept : (m'.allocators ≡ m.allocators) × (m'.clock ≡ m.clock) × (m'.oplog ≡ m.oplog)

module _ {A : Type 0} (D : Deps A) (key : String) (requester : IdentityScope) (m : Master A) where
  abbrev leased_object : ObjectMetadata → ObjectMetadata
  leased_object o = record o { last_access = m.clock; lease_until = add64 m.clock m.lease_ttl }

  abbrev read_state : ObjectMetadata → Master A
  read_state o = record (touch D key m) { objects = insert key (leased_object o) m.objects }

  read_found :
      (o : ObjectMetadata) (r : Replica) (rs : List Replica)
      → lookup key m.objects ≡ some o
      → reuse_violation_against o.identity requester ≡ none
      → readable m.segment_ttl m.clock m.segment_heartbeat o.replicas ≡ r ∷ rs
      → get_replica_list D key requester m ≡ (ok (r ∷ rs), read_state o)
  unfolding get_replica_list touch
  read_found o r rs e g h = unfold read in ground arith

  found_Served :
      (o : ObjectMetadata) (r : Replica) (rs : List Replica)
      → lookup key m.objects ≡ some o
      → o.identity ≡ requester
      → readable m.segment_ttl m.clock m.segment_heartbeat o.replicas ≡ r ∷ rs
      → Served m key requester (r ∷ rs) (read_state o)
  unfolding touch
  found_Served o r rs e g h = record {
    object = o;
    found = e;
    same_identity = g;
    answer = sym h;
    all_servable =
        subst (Picks (Servable m.segment_ttl m.clock m.segment_heartbeat) o.replicas) h
          (readable-Picks m.segment_ttl m.clock m.segment_heartbeat o.replicas);
    servable =
        subst (All (Servable m.segment_ttl m.clock m.segment_heartbeat)) h
          (readable-Servable m.segment_ttl m.clock m.segment_heartbeat o.replicas);
    leased = rw lookup-insert (ground (arith, eq_iff key key));
    others = λ j n. rw lookup-insert (ground (arith, eq_iff key j));
    kept = (refl, refl, refl);
  }

  -- The answer of a read, by what the object map holds under the key.
  abbrev pub Answer : Option ObjectMetadata → Type 0
  Answer none = get_replica_list D key requester m ≡ (err object_not_found, touch D key m)
  Answer (some o) =
      ((v : ReuseViolation) × (o.identity ≢ requester)
        × (get_replica_list D key requester m ≡ (err (unsafe_reuse v), touch D key m)))
      ⊎ ((o.identity ≡ requester)
          × All (λ r. Servable m.segment_ttl m.clock m.segment_heartbeat r → ⊥) o.replicas
          × (get_replica_list D key requester m ≡ (err object_not_ready, touch D key m)))
      ⊎ ((rs : List Replica) × (m' : Master A) × (rs ≢ [])
          × (get_replica_list D key requester m ≡ (ok rs, m'))
          × Served m key requester rs m')

  Answer-some :
      (o : ObjectMetadata)
      → lookup key m.objects ≡ some o
      → (v : Option ReuseViolation) → reuse_violation_against o.identity requester ≡ v
      → (rs : List Replica) → readable m.segment_ttl m.clock m.segment_heartbeat o.replicas ≡ rs
      → Answer (some o)
  Answer-some o e (some v) g rs h = inl (
    v,
    (λ same. ground (arith, (reuse_violation_against-eq-none_iff o.identity requester).1 same)),
    unfold get_replica_list touch read in ground arith,
  )
  Answer-some o e none g [] h = inr (
      inl (
        (reuse_violation_against-eq-none_iff o.identity requester).0 g,
        Picks-none (Servable m.segment_ttl m.clock m.segment_heartbeat) o.replicas (
            subst (Picks (Servable m.segment_ttl m.clock m.segment_heartbeat) o.replicas) h
              (readable-Picks m.segment_ttl m.clock m.segment_heartbeat o.replicas)),
        unfold get_replica_list touch read in ground arith,
      ))
  Answer-some o e none g (r ∷ rs) h = inr (
      inr (
        r ∷ rs,
        read_state o,
        (λ n. cc),
        read_found o r rs e g h,
        found_Served o r rs e ((reuse_violation_against-eq-none_iff o.identity requester).0 g) h,
      ))

  Answer-of : (found : Option ObjectMetadata) → lookup key m.objects ≡ found → Answer found
  Answer-of none e = unfold get_replica_list touch read in ground arith
  Answer-of (some o) e = Answer-some o e _ refl _ refl

  -- A read of an absent key is `object_not_found`. Under another identity than the writer's it is
  -- refused as unsafe reuse; under the writer's it is `object_not_ready` where no replica is
  -- complete and on a living segment; these three change the access counts alone. Otherwise it
  -- hands out every replica that is complete and on a living segment, in the object's order, and no
  -- other, at least one, and leases the object until
  -- `lease_ttl` ticks from now, leaving every other object and the segments alone.
  pub get_replica_list-Answer : Answer (lookup key m.objects)
  get_replica_list-Answer = Answer-of _ refl
