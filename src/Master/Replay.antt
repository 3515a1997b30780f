-- ===== src/Master/Replay.antt =====
-- Op-log replay in crates/quillcache-store/src/master_service.rs against the commits that the
-- master logs.
use mathlib.Core.List.{append_assoc}
use quillcache.Prelude.{
  ℕ, ◌≤◌, String, ◌≡◌, refl, ap, ◌∙◌, true, some, List, [], ◌∷◌, ◌++◌, arith, any,
}
use quillcache.Identity.{IdentityScope}
use quillcache.StrMap.Laws.{lookup-insert_self}
use quillcache.StrMap.{lookup, insert}
use quillcache.Allocator.Interface.{Laws}
use quillcache.Types.{Result, ok, err, ErrorCode}
use quillcache.Replica.{
  Replica, ReplicaData, ReplicaList, ReplicaStatus, memory, disk, initialized, complete,
  is_complete,
}
use quillcache.Types.{ReplicateConfig}
use quillcache.Master.Rewrite.{upsert_start}
use quillcache.Master.Objects.{put_end, first_size, with_status, commit_entry}
use quillcache.Master.{
  Deps, has_complete_replica, Master, ObjectMetadata, OpLogEntry, put_committed,
}
use quillcache.Master.Recovery.{create, replay, recover_from_oplog}
use quillcache.Master.ReserveTwice.{replay_twice, replay_stuck, InMemoryOr, InMemory}

abbrev committed : ObjectMetadata → ObjectMetadata
committed o = record o { replicas = with_status complete o.replicas }

abbrev reopened : IdentityScope → ℕ → ObjectMetadata → ObjectMetadata
reopened identity now o = record o {
  identity = identity;
  last_access = now;
  replicas = with_status initialized o.replicas;
}

module _ {A : Type 0} (key : String) (o : ObjectMetadata) (es : List OpLogEntry) where
  abbrev commit_state : Master A → Master A
  commit_state m = record m {
    objects = insert key (committed o) m.objects;
    oplog = some (es ++ commit_entry key (committed o) ∷ []);
  }

  put_end-logs :
      (m : Master A)
      → lookup key m.objects ≡ some o
      → m.oplog ≡ some es
      → put_end key m ≡ (ok tt, commit_state m)
  unfolding put_end
  put_end-logs m e l = ground arith

with_status-with_status :
    (s t : ReplicaStatus) (rs : ReplicaList) → with_status s (with_status t rs) ≡ with_status s rs
with_status-with_status s t [] = refl
with_status-with_status s t (r ∷ rs) =
    ap (◌∷◌ (record r { status = s })) (with_status-with_status s t rs)

first_size-with_status :
    (s : ReplicaStatus) (rs : ReplicaList) → first_size (with_status s rs) ≡ first_size rs
first_size-with_status s [] = refl
first_size-with_status s (r ∷ rs) = refl

InMemory-step :
    (r : Replica) (rs rs' : ReplicaList) (s : ReplicaStatus)
    → (InMemory rs → InMemory rs')
    → InMemory (r ∷ rs)
    → InMemory (record r { status = s } ∷ rs')
InMemory-step r rs rs' s f h = go r.content h
  where
    go : (d : ReplicaData) → InMemoryOr d (InMemory rs) → InMemoryOr d (InMemory rs')
    go (memory b) k = tt
    go (disk p n) k = f k

InMemory-with_status :
    (s : ReplicaStatus) (rs : ReplicaList) → InMemory rs → InMemory (with_status s rs)
InMemory-with_status s [] h = h
InMemory-with_status s (r ∷ rs) h =
    InMemory-step r rs (with_status s rs) s (InMemory-with_status s rs) h

InMemory-complete :
    (rs : ReplicaList) → InMemory rs → any is_complete (with_status complete rs) ≡ true
InMemory-complete [] h = absurd h
InMemory-complete (r ∷ rs) h = refl

upsert_start-reopens :
    {A : Type 0} (D : Deps A) (m : Master A) (key : String) (o : ObjectMetadata)
    (identity : IdentityScope) (size : ℕ) (config : ReplicateConfig)
    → lookup key m.objects ≡ some o
    → has_complete_replica o ≡ true
    → o.lease_until ≤ m.clock
    → first_size o.replicas ≡ size
    → (upsert_start D key identity size config m).1
      ≡ record m { objects = insert key (reopened identity m.clock o) m.objects }
upsert_start-reopens D m key o identity size config e c z f = unfold upsert_start in ground arith

-- A commit, an upsert of the same size once the read lease is over, and its commit: whatever the
-- identity of the upsert and whatever was logged before, the op-log that they leave cannot be
-- recovered from, since replay reserves the same buffers twice.
pub upsert_breaks_recovery :
    {A : Type 0} (D : Deps A) (laws : Laws D.ops) (m : Master A) (key : String) (o : ObjectMetadata)
    (es : List OpLogEntry) (identity : IdentityScope) (config : ReplicateConfig)
    → lookup key m.objects ≡ some o
    → m.oplog ≡ some es
    → InMemory o.replicas
    → o.lease_until ≤ m.clock
    → let committed = (put_end key m).1 in
      let reopened = (upsert_start D key identity (first_size o.replicas) config committed).1 in
      (log : List OpLogEntry) × ((put_end key reopened).1.oplog ≡ some log)
      × (c : ErrorCode) × (recover_from_oplog D.ops log ≡ err c)
upsert_breaks_recovery {A} D laws m key o es identity config e l im z =
    let o1 = committed o in
    let m1 = commit_state key o es m in
    let es1 = es ++ commit_entry key o1 ∷ [] in
    let o2 = reopened identity m.clock o1 in
    let m2 = record m1 { objects = insert key o2 m1.objects } in
    let size = first_size o.replicas in
    let step1 : (put_end key m).1 ≡ m1 = ap (λ x. x.1) (put_end-logs key o es m e l) in
    let step2 =
      upsert_start-reopens D m1 key o1 identity size config (lookup-insert_self key o1 m.objects)
        (unfold has_complete_replica in InMemory-complete o.replicas im) z
        (first_size-with_status complete o.replicas) in
    let step3 = put_end-logs key o2 es1 m2 (lookup-insert_self key o2 m1.objects) refl in
    let rs = with_status complete o.replicas in
    let same : with_status complete (with_status initialized rs) ≡ rs =
      with_status-with_status complete initialized rs
      ∙ with_status-with_status complete complete o.replicas in
    let second = put_committed key identity rs o.soft_pinned o.hard_pinned in
    let broken = replay_stuck D.ops laws es (commit_entry key o1 ∷ second ∷ []) create (λ m'.
      replay_twice D.ops laws key o.identity identity rs o.soft_pinned o.hard_pinned o.soft_pinned
        o.hard_pinned m' (InMemory-with_status complete o.replicas im)) in
    (
      es1 ++ second ∷ [],
      ap (λ (x : Master A). (put_end key (upsert_start D key identity size config x).1).1.oplog)
            step1
          ∙ ap (λ (x : Master A). (put_end key x).1.oplog) step2
          ∙ ap (λ (x : Result (Unit {0}) × Master A). x.1.oplog) step3
          ∙ ap (λ x. some (es1 ++ put_committed key identity x o.soft_pinned o.hard_pinned ∷ []))
              same,
      broken.0,
      unfold recover_from_oplog in
          (ap (λ l. replay D.ops l create)
              (append_assoc es (commit_entry key o1 ∷ []) (second ∷ []))
            ∙ broken.1),
    )
