-- ===== src/Master/Segments.antt =====
-- The segment lifecycle of crates/quillcache-store/src/master_service.rs: mounting, ownership by
-- clients, heartbeats and failure detection.
use quillcache.Prelude.{
  ℕ, ◌-◌, String, Bool, true, false, not, ◌||◌, Option, none, some, List, [], ◌∷◌, ◌++◌, map,
  str_eq, leb, ◌==◌, if◌then◌else◌, keep, any, add64,
}
use quillcache.StrMap.{StrMap, lookup, insert, remove}
use quillcache.Allocator.Interface.{BufferAllocator}
use quillcache.Types.{Result, ok, err, segment_not_found}
use quillcache.Replica.{ReplicaList, data_segment_name}
use quillcache.Master.{Master, ObjectMetadata, OpLogEntry, segment_mounted, segment_unmounted}

-- `Option<&str> == Some(name)`.
abbrev pub on_segment : String → Option String → Bool
on_segment name none = false
on_segment name (some s) = str_eq s name

abbrev pub is_nil {ℓ} : {X : Type ℓ} → List X → Bool
is_nil [] = true
is_nil (x ∷ xs) = false

-- The replicas of an object that are not on the segment.
unfoldable pub drop_segment : String → ReplicaList → ReplicaList
unfolding data_segment_name
drop_segment name = keep (λ r. not (on_segment name (data_segment_name r.content)))

-- Every object without its replicas on the segment; objects left without replicas go.
unfoldable pub drop_replicas : String → StrMap ObjectMetadata → StrMap ObjectMetadata
unfolding drop_segment
drop_replicas name [] = []
drop_replicas name ((k, o) ∷ m) =
    let rest = drop_replicas name m in
    let replicas = drop_segment name o.replicas in
    if is_nil replicas then rest else (k, record o { replicas = replicas }) ∷ rest

-- Whether a heartbeat at `last` is recent enough.
abbrev pub recent : ℕ → ℕ → ℕ → Bool
recent ttl now last = ttl == 0 || leb (now - last) ttl

-- Every segment of the list gets the heartbeat `now`.
unfoldable pub refresh : ℕ → List String → StrMap ℕ → StrMap ℕ
unfolding insert
refresh now [] hb = hb
refresh now (s ∷ ss) hb = refresh now ss (insert s now hb)

-- The names whose owner is the client.
unfoldable pub owned_names : String → StrMap String → List String
owned_names client_id [] = []
owned_names client_id ((s, c) ∷ m) =
    let rest = owned_names client_id m in if str_eq c client_id then s ∷ rest else rest

module _ {A : Type 0} where
  -- Appends to the op-log, if one is enabled.
  unfoldable pub log_op : OpLogEntry → Master A → Master A
  log_op entry m = elim m.oplog [
    | none ↦ m
    | some entries ↦ record m { oplog = some (entries ++ entry ∷ []) }
  ]

  unfoldable pub enable_oplog : List OpLogEntry → Master A → Master A
  enable_oplog existing m = record m { oplog = some existing }

  unfoldable pub tick : Master A → ℕ × Master A
  tick m = (add64 m.clock 1, record m { clock = add64 m.clock 1 })

  unfoldable pub set_segment_ttl : ℕ → Master A → Master A
  set_segment_ttl ttl m = record m { segment_ttl = ttl }

  unfoldable pub segments_owned_by : String → Master A → List String
  unfolding owned_names
  segments_owned_by client_id m = owned_names client_id m.segment_owner

  unfoldable pub client_heartbeat : String → Master A → Master A
  unfolding refresh owned_names
  client_heartbeat client_id m = record m {
    segment_heartbeat = refresh m.clock (owned_names client_id m.segment_owner) m.segment_heartbeat;
  }

  unfoldable pub heartbeat : String → Master A → Result (Unit {0}) × Master A
  unfolding lookup insert
  heartbeat segment m = elim (lookup segment m.segment_heartbeat) [
    | some last ↦
        (ok tt, record m { segment_heartbeat = insert segment m.clock m.segment_heartbeat })
    | none ↦ (err segment_not_found, m)
  ]

  unfoldable pub segment_alive : Master A → String → Bool
  unfolding lookup
  segment_alive m segment = elim (lookup segment m.segment_heartbeat) [
    | some last ↦ recent m.segment_ttl m.clock last
    | none ↦ false
  ]

module _ {A : Type 0} (B : BufferAllocator A) where
  unfoldable pub is_mounted : String → List A → Bool
  is_mounted name allocators = any (λ a. str_eq (B.segment_name a) name) allocators

  unfoldable pub mount_segment : String → ℕ → Master A → Master A
  unfolding insert log_op
  mount_segment name capacity m = log_op (segment_mounted name capacity) (record m {
    segment_heartbeat = insert name m.clock m.segment_heartbeat;
    allocators = m.allocators ++ B.mount name capacity ∷ [];
  })

  unfoldable pub unmount_segment : String → Master A → Result (Unit {0}) × Master A
  unfolding is_mounted drop_replicas remove log_op
  unmount_segment name m =
      if is_mounted name m.allocators
      then (
        ok tt,
        log_op (segment_unmounted name) (record m {
          objects = drop_replicas name m.objects;
          allocators = keep (λ a. not (str_eq (B.segment_name a) name)) m.allocators;
          segment_heartbeat = remove name m.segment_heartbeat;
          segment_owner = remove name m.segment_owner;
        }),
      )
      else (err segment_not_found, m)

  unfoldable pub mount_segment_for : String → String → ℕ → Master A → Master A
  unfolding mount_segment insert
  mount_segment_for client_id name capacity m =
      let mounted = mount_segment name capacity m in
      record mounted { segment_owner = insert name client_id mounted.segment_owner }

  unfoldable pub remount_one : String → String × ℕ → Master A → Master A
  unfolding is_mounted mount_segment_for insert
  remount_one client_id (name, capacity) m =
      if is_mounted name m.allocators
      then record m { segment_owner = insert name client_id m.segment_owner }
      else mount_segment_for client_id name capacity m

  unfoldable pub remount_each : String → List (String × ℕ) → Master A → Master A
  unfolding remount_one
  remount_each client_id [] m = m
  remount_each client_id (s ∷ segments) m =
      remount_each client_id segments (remount_one client_id s m)

  unfoldable pub remount_segments : String → List (String × ℕ) → Master A → Master A
  unfolding remount_each client_heartbeat
  remount_segments client_id segments m =
      client_heartbeat client_id (remount_each client_id segments m)

  unfoldable pub owns : String → String → Master A → Bool
  unfolding lookup
  owns client_id name m = on_segment client_id (lookup name m.segment_owner)

  unfoldable pub unmount_segment_for : String → String → Master A → Result (Unit {0}) × Master A
  unfolding owns unmount_segment
  unmount_segment_for client_id name m =
      if owns client_id name m then unmount_segment name m else (err segment_not_found, m)

  unfoldable pub dead_segments : Master A → List String
  unfolding segment_alive
  dead_segments m =
      keep (λ name. not (segment_alive m name)) (map (λ a. B.segment_name a) m.allocators)
