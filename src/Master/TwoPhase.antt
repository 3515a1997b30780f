-- ===== src/Master/TwoPhase.antt =====
-- The two phases of a Put in crates/quillcache-store/src/master_service.rs.
use quillcache.Prelude.{
  ℕ, String, ◌≡◌, refl, ap, ◌∙◌, ◌⊎◌, inl, inr, true, false, none, some, List, [], ◌∷◌, map, arith,
  Bool-cases, Option-cases, any, All, add32,
}
use quillcache.Identity.{IdentityScope}
use quillcache.StrMap.{lookup, remove}
use quillcache.StrMap.Laws.{lookup-insert_self, lookup-remove_self}
use quillcache.Allocator.{AllocatedBuffer}
use quillcache.Types.{Result, ok, err, ReplicateConfig, object_already_exists}
use quillcache.Replica.{complete, is_complete}
use quillcache.Master.{Master, Deps, ObjectMetadata, has_complete_replica}
use quillcache.Master.Evict.{deallocate_in, free_replicas, allocate_replicas}
use quillcache.Master.Eviction.{allocate_replicas-Kept}
use quillcache.Master.Objects.{
  fresh_replicas, with_status, buffers_of, exist_key, reclaim, record_put, start, put_start,
}

fresh_incomplete :
    (id : ℕ) (bs : List AllocatedBuffer) → any is_complete (fresh_replicas id bs).0 ≡ false
unfolding fresh_replicas
fresh_incomplete id [] = refl
fresh_incomplete id (b ∷ bs) = fresh_incomplete (add32 id 1) bs

buffers_of-fresh_replicas :
    (id : ℕ) (bs : List AllocatedBuffer) → buffers_of (fresh_replicas id bs).0 ≡ bs
unfolding fresh_replicas buffers_of
buffers_of-fresh_replicas id [] = refl
buffers_of-fresh_replicas id (b ∷ bs) = ap (◌∷◌ b) (buffers_of-fresh_replicas (add32 id 1) bs)

-- Each buffer deallocated in the segment of its name.
abbrev pub deallocate_each : {A : Type 0} → Deps A → List AllocatedBuffer → List A → List A
deallocate_each D [] allocators = allocators
deallocate_each D (b ∷ bs) allocators = deallocate_each D bs (deallocate_in D.ops b allocators)

-- An object that a Put has started: allocated, owned, and not readable.
pub record InFlight {A : Type 0} (m : Master A) (key : String) (identity : IdentityScope)
    (config : ReplicateConfig) (buffers : List AllocatedBuffer) : Type 0 where
  pub object : ObjectMetadata
  pub found : lookup key m.objects ≡ some object
  pub owner : object.identity ≡ identity
  pub unleased : object.lease_until ≡ 0
  pub pins :
      (object.soft_pinned ≡ config.with_soft_pin) × (object.hard_pinned ≡ config.with_hard_pin)
  pub placed : buffers_of object.replicas ≡ buffers
  pub unreadable : has_complete_replica object ≡ false

-- What `put_end` makes of an object in flight: the same replicas, complete, and nothing else.
pub record Ended {A : Type 0} (before : ObjectMetadata) (buffers : List AllocatedBuffer)
    (key : String) (m m' : Master A) : Type 0 where
  pub object : ObjectMetadata
  pub found : lookup key m'.objects ≡ some object
  pub placed : buffers_of object.replicas ≡ buffers
  pub same_ids : map (λ r. r.id) object.replicas ≡ map (λ r. r.id) before.replicas
  pub completed : All (λ r. is_complete r ≡ true) object.replicas
  pub same_object : object ≡ record before { replicas = object.replicas }
  pub same_allocators : m'.allocators ≡ m.allocators

module _ {A : Type 0} (D : Deps A) (key : String) (identity : IdentityScope) (size : ℕ)
    (config : ReplicateConfig) where
  -- What the answer says of the master that is left.
  abbrev pub Started : Result (List AllocatedBuffer) × Master A → Type 0
  Started (ok buffers, m') = InFlight m' key identity config buffers
  Started (err e, m') = lookup key m'.objects ≡ none

  record_put-Started :
      (r : Result (List AllocatedBuffer)) (m : Master A)
      → lookup key m.objects ≡ none
      → Started (record_put D key identity config (r, m))
  unfolding record_put has_complete_replica
  record_put-Started (err e) m h = h
  record_put-Started (ok buffers) m h = record {
    object = _;
    found = lookup-insert_self key _ m.objects;
    owner = refl;
    unleased = refl;
    pins = (refl, refl);
    placed = buffers_of-fresh_replicas m.next_replica_id buffers;
    unreadable = fresh_incomplete m.next_replica_id buffers;
  }

  start-Started :
      (m : Master A)
      → lookup key m.objects ≡ none
      → Started (start D key identity size config (ok tt, m))
  unfolding start
  start-Started m h =
      let k = allocate_replicas-Kept D size config.replica_num config.preferred_segment m in
      let (r, m') = allocate_replicas D size config.replica_num config.preferred_segment m in
      record_put-Started r m' (elim (k.shrinks key) [ inl e ↦ e ∙ h | inr e ↦ e ])

  -- `put_start` refuses a key whose object is readable and changes nothing. Otherwise an in-flight
  -- leftover under the key is dropped, and either the Put fails and the key is absent, or the
  -- object is recorded with the writer's identity, the pins asked for and one replica for each
  -- buffer that is answered, and it is not readable yet.
  pub put_start-Started :
      (m : Master A)
      → ((exist_key key m ≡ true)
          × (put_start D key identity size config m ≡ (err object_already_exists, m)))
        ⊎ ((exist_key key m ≡ false) × Started (put_start D key identity size config m))
  unfolding put_start exist_key
  put_start-Started m = elim (Option-cases (lookup key m.objects)) [
    | inl e ↦ inr (ground arith, rw (e, reclaim) (start-Started m e))
    | inr (o, e) ↦ elim (Bool-cases (has_complete_replica o)) [
      | inl c ↦ inl (ground arith, unfold start in ground arith)
      | inr i ↦ inr (
        ground arith,
        rw (e, reclaim)
            (rw (i, reclaim)
              (start-Started
                (record m {
                  objects = remove key m.objects;
                  allocators = free_replicas D.ops o.replicas m.allocators;
                })
                (lookup-remove_self key m.objects))),
      )
    ]
  ]

  abbrev ended_object : ObjectMetadata → ObjectMetadata
  ended_object o = record o { replicas = with_status complete o.replicas }
