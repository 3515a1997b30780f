-- ===== src/Master/ReserveTwice.antt =====
-- Replay of the same replicas twice, in crates/quillcache-store/src/master_service.rs.
use quillcache.Prelude.{
  String, ◌≡◌, refl, subst, inl, inr, Bool, List, [], ◌∷◌, ◌++◌, arith, str_eq, Bool-cases,
  Option-cases,
}
use quillcache.Identity.{IdentityScope}
use quillcache.Allocator.{AllocatedBuffer}
use quillcache.Allocator.Interface.{BufferAllocator, Laws}
use quillcache.Types.{ok, err, ErrorCode, Result-cases, invalid_replica}
use quillcache.Replica.{Replica, ReplicaData, memory, disk}
use quillcache.Master.{Master, OpLogEntry, put_committed}
use quillcache.Master.Recovery.{reserve_in, reserve_one, reserve_all, apply_op, replay}

abbrev pub InMemoryOr : ReplicaData → Type 0 → Type 0
InMemoryOr (memory b) X = Unit {0}
InMemoryOr (disk p n) X = X

-- Some replica is in memory.
abbrev pub InMemory : List Replica → Type 0
InMemory [] = ⊥
InMemory (r ∷ rs) = InMemoryOr r.content (InMemory rs)

module _ {A : Type 0} (B : BufferAllocator A) (laws : Laws B) where
  -- The buffer's segment is mounted and refuses the buffer's range.
  abbrev Taken : AllocatedBuffer → List A → Type 0
  Taken b as' = reserve_in B b as' ≡ err invalid_replica

  reserve_in-Taken :
      (b : AllocatedBuffer) (as' after : List A) → reserve_in B b as' ≡ ok after → Taken b after
  unfolding reserve_in
  reserve_in-Taken b [] after e = cc
  reserve_in-Taken b (a ∷ others) after e =
      elim (Bool-cases (str_eq (B.segment_name a) b.segment_name)) [
        | inl here ↦ elim (Option-cases (B.reserve a b.offset b.size)) [
          | inl refused ↦ ground arith
          | inr (a', r) ↦
              let same : after ≡ a' ∷ others = ground arith in
              rw same (
                ground (
                  arith,
                  laws.name_reserve a a' b.offset b.size r,
                  laws.reserve_twice a a' b.offset b.size r,
                ))
        ]
        | inr there ↦ elim (Result-cases (reserve_in B b others)) [
          | inr (c, r) ↦ ground arith
          | inl (others', r) ↦
              let same : after ≡ a ∷ others' = ground arith in
              rw same (ground (arith, reserve_in-Taken b others others' r))
        ]
      ]

  reserve_in-keeps :
      (b other : AllocatedBuffer) (as' after : List A)
      → Taken b as'
      → reserve_in B other as' ≡ ok after
      → Taken b after
  unfolding reserve_in
  reserve_in-keeps b other [] after t e = cc
  reserve_in-keeps b other (a ∷ others) after t e =
      elim (Bool-cases (str_eq (B.segment_name a) other.segment_name)) [
        | inl here ↦ elim (Option-cases (B.reserve a other.offset other.size)) [
          | inl refused ↦ ground arith
          | inr (a', r) ↦
              let same : after ≡ a' ∷ others = ground arith in
              rw same (
                ground (
                  arith,
                  laws.name_reserve a a' other.offset other.size r,
                  laws.reserve_shrinks a a' b.offset b.size other.offset other.size,
                ))
        ]
        | inr there ↦ elim (Result-cases (reserve_in B other others)) [
          | inr (c, r) ↦ ground arith
          | inl (others', r) ↦
              let same : after ≡ a ∷ others' = ground arith in
              rw same (ground (arith, reserve_in-keeps b other others others'))
        ]
      ]

  reserve_one-keeps :
      (b : AllocatedBuffer) (d : ReplicaData) (as' after : List A)
      → Taken b as'
      → reserve_one B d as' ≡ ok after
      → Taken b after
  unfolding reserve_one
  reserve_one-keeps b (memory other) as' after t e = reserve_in-keeps b other as' after t e
  reserve_one-keeps b (disk p n) as' after t e =
      let same : as' ≡ after = ground arith in rw (← same) t

  reserve_all-keeps :
      (b : AllocatedBuffer) (rs : List Replica) (as' after : List A)
      → Taken b as'
      → reserve_all B rs as' ≡ ok after
      → Taken b after
  unfolding reserve_all
  reserve_all-keeps b [] as' after t e = let same : as' ≡ after = ground arith in rw (← same) t
  reserve_all-keeps b (r ∷ rs) as' after t e = elim (Result-cases (reserve_one B r.content as')) [
    | inr (c, f) ↦ ground arith
    | inl (mid, f) ↦
        reserve_all-keeps b rs mid after (reserve_one-keeps b r.content as' mid t f) (ground arith)
  ]

  abbrev Twice : List Replica → List A → List A → Type 0
  Twice rs as' after =
      InMemory rs
      → reserve_all B rs as' ≡ ok after
      → (c : ErrorCode) × (reserve_all B rs after ≡ err c)

  Twice-step :
      (r : Replica) (rs : List Replica) (as' after : List A) (d : ReplicaData)
      → r.content ≡ d
      → Twice rs as' after
      → Twice (r ∷ rs) as' after
  unfolding reserve_all reserve_one
  Twice-step r rs as' after (memory b) k rest h e = elim (Result-cases (reserve_in B b as')) [
    | inr (c, f) ↦ ground arith
    | inl (mid, f) ↦
        let kept = reserve_all-keeps b rs mid after (reserve_in-Taken b as' mid f) (ground arith) in
        (invalid_replica, ground arith)
  ]
  Twice-step r rs as' after (disk p n) k rest h e =
      let (c, f) =
        rest (subst (λ (d : ReplicaData). InMemoryOr d (InMemory rs)) k h) (ground arith) in
      (c, ground arith)

  -- Replicas that were reserved once cannot be reserved again.
  reserve_all-Twice : (rs : List Replica) (as' after : List A) → Twice rs as' after
  reserve_all-Twice [] as' after h e = absurd h
  reserve_all-Twice (r ∷ rs) as' after h e =
      Twice-step r rs as' after r.content refl (reserve_all-Twice rs as' after) h e

  -- A second commit of the same replicas, under whatever identity and pins, is not replayed.
  pub replay_twice :
      (key : String) (i j : IdentityScope) (rs : List Replica) (s h s' h' : Bool) (m : Master A)
      → InMemory rs
      → (c : ErrorCode) × (replay B
            (put_committed key i rs s h ∷ put_committed key j rs s' h' ∷ [])
            m
          ≡ err c)
  unfolding replay
  replay_twice key i j rs s h s' h' m im = elim (Result-cases (reserve_all B rs m.allocators)) [
    | inr (c, f) ↦ (c, ground arith)
    | inl (after, f) ↦
        let (c, g) = reserve_all-Twice rs m.allocators after im f in (c, ground arith)
  ]

  pub replay_stuck :
      (es : List OpLogEntry) (rest : List OpLogEntry) (m : Master A)
      → ((m' : Master A) → (c : ErrorCode) × (replay B rest m' ≡ err c))
      → (c : ErrorCode) × (replay B (es ++ rest) m ≡ err c)
  unfolding replay
  replay_stuck [] rest m h = h m
  replay_stuck (e ∷ es) rest m h = elim (Result-cases (apply_op B e m)) [
    | inr (c, f) ↦ (c, rw (f, replay) refl)
    | inl (m', f) ↦ let (c, g) = replay_stuck es rest m' h in (c, rw (f, replay) g)
  ]
