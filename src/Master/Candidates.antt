-- ===== src/Master/Candidates.antt =====
-- The candidates for eviction of crates/quillcache-store/src/master_service.rs.
use quillcache.Prelude.{
  ℕ, ◌≤◌, ◌<◌, String, ◌≡◌, refl, ◌∙◌, subst, ◌⊎◌, inl, inr, true, false, not, ◌&&◌, none, some,
  List, [], ◌∷◌, map, arith, eq_iff, leb, Bool-cases, All,
}
use quillcache.StrMap.{StrMap, lookup}
use quillcache.StrMap.Laws.{Distinct}
use quillcache.Strategy.Sort.{All-weaken, sort_stable-All}
use quillcache.Master.{Master, ObjectMetadata}
use quillcache.Master.Evict.{Victim, victims, colder, victims_coldest_first}

-- An object that eviction must leave alone.
abbrev pub Protected : ℕ → ObjectMetadata → Type 0
Protected now o = (o.hard_pinned ≡ true) ⊎ (now < o.lease_until)

-- The victim is the entry of its key, which is neither hard pinned nor leased.
abbrev pub Evictable : ℕ → StrMap ObjectMetadata → Victim → Type 0
Evictable now m v =
    (o : ObjectMetadata) × (lookup v.0 m ≡ some o) × (o.hard_pinned ≡ false) × (o.lease_until ≤ now)

-- A key found behind an entry of a map with distinct keys is found in the whole.
lookup_behind :
    (k j : String) (o : ObjectMetadata) (w : ObjectMetadata) (m : StrMap ObjectMetadata)
    → lookup j m ≡ none
    → lookup k m ≡ some o
    → lookup k ((j, w) ∷ m) ≡ some o
unfolding lookup
lookup_behind k j o w m d e =
    ground (arith, eq_iff j k, λ (p : j ≡ k). subst (λ x. lookup x m ≡ none) p d)

victims-Evictable :
    (now : ℕ) (m : StrMap ObjectMetadata) → Distinct m → All (Evictable now m) (victims now m)
unfolding victims
victims-Evictable now [] d = tt
victims-Evictable now ((k, o) ∷ m) d =
    let rest =
      All-weaken (Evictable now m) (Evictable now ((k, o) ∷ m))
        (λ v h. (h.0, lookup_behind v.0 k h.0 o m d.0 h.1, h.2, h.3)) (victims now m)
        (victims-Evictable now m d.1) in
    elim (Bool-cases (not o.hard_pinned && leb o.lease_until now)) [
      | inl e ↦
          rw e
            ((o, (unfold lookup in ground (arith, eq_iff k k)), ground arith, ground arith), rest)
      | inr e ↦ rw e rest
    ]

abbrev pub EvictableKey : ℕ → StrMap ObjectMetadata → String → Type 0
EvictableKey now m k =
    (o : ObjectMetadata) × (lookup k m ≡ some o) × (o.hard_pinned ≡ false) × (o.lease_until ≤ now)

keys-Evictable :
    (now : ℕ) (m : StrMap ObjectMetadata) (vs : List Victim)
    → All (Evictable now m) vs
    → All (EvictableKey now m) (map (λ v. v.0) vs)
keys-Evictable now m [] h = tt
keys-Evictable now m (v ∷ vs) h = (h.0, keys-Evictable now m vs h.1)

-- The candidates are entries that are neither hard pinned nor leased.
pub victims_coldest_first-Evictable :
    {A : Type 0} (m : Master A)
    → Distinct m.objects
    → All (EvictableKey m.clock m.objects) (victims_coldest_first m)
unfolding victims_coldest_first
victims_coldest_first-Evictable m d =
    keys-Evictable m.clock m.objects _ (
      sort_stable-All colder (Evictable m.clock m.objects) _
        (victims-Evictable m.clock m.objects d))

-- What eviction leaves alone: everything but the objects, the segments' contents and the log.
pub record Kept {A : Type 0} (m m' : Master A) : Type 0 where
  pub clock : m'.clock ≡ m.clock
  pub lease_ttl : m'.lease_ttl ≡ m.lease_ttl
  pub next_replica_id : m'.next_replica_id ≡ m.next_replica_id
  pub heartbeats : m'.segment_heartbeat ≡ m.segment_heartbeat
  pub segment_ttl : m'.segment_ttl ≡ m.segment_ttl
  pub owners : m'.segment_owner ≡ m.segment_owner
  pub distinct : Distinct m.objects → Distinct m'.objects
  pub shrinks :
      (j : String) → (lookup j m'.objects ≡ lookup j m.objects) ⊎ (lookup j m'.objects ≡ none)

pub Kept-refl : {A : Type 0} (m : Master A) → Kept m m
Kept-refl m = record {
  clock = refl;
  lease_ttl = refl;
  next_replica_id = refl;
  heartbeats = refl;
  segment_ttl = refl;
  owners = refl;
  distinct = λ d. d;
  shrinks = λ j. inl refl;
}

pub Kept-trans : {A : Type 0} {m m' m'' : Master A} → Kept m m' → Kept m' m'' → Kept m m''
Kept-trans a b = record {
  clock = b.clock ∙ a.clock;
  lease_ttl = b.lease_ttl ∙ a.lease_ttl;
  next_replica_id = b.next_replica_id ∙ a.next_replica_id;
  heartbeats = b.heartbeats ∙ a.heartbeats;
  segment_ttl = b.segment_ttl ∙ a.segment_ttl;
  owners = b.owners ∙ a.owners;
  distinct = λ d. b.distinct (a.distinct d);
  shrinks = λ j. elim (b.shrinks j) [
    | inr e ↦ inr e
    | inl e ↦ elim (a.shrinks j) [ inl f ↦ inl (e ∙ f) | inr f ↦ inr (e ∙ f) ]
  ];
}
