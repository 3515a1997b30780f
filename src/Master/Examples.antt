-- ===== src/Master/Examples.antt =====
-- A small store over the first-fit allocator: one segment, one object under "k".
use quillcache.Prelude.{
  ◌*◌, ◌/◌, ◌≡◌, refl, ◌⊎◌, inl, true, false, none, some, List, [], ◌∷◌, arith, ltb,
}
use quillcache.Identity.{IdentityScope}
use quillcache.StrMap.{lookup}
use quillcache.StrMap.Laws.{Distinct}
use quillcache.Allocator.{AllocatedBuffer}
use quillcache.Allocator.FirstFit.Instance.{Segment, first_fit, first_fit-Laws}
use quillcache.Strategy.{allocate_random}
use quillcache.Sketch
use quillcache.Types.{err, ReplicateConfig, ErrorCode, object_already_exists}
use quillcache.Replica.{ReplicaStatus, memory, initialized, complete}
use quillcache.Master.{Master, Deps, ObjectMetadata, OpLogEntry, has_complete_replica}
use quillcache.Master.Guard.{Answer, get_replica_list-Answer}
use quillcache.Master.Eviction.{allocate_replicas-protects}
use quillcache.Master.Evict.{allocate_replicas}
use quillcache.Master.Rewrite.{upsert_start, batch_put_start}
use quillcache.Master.Objects.{buffers_of, exist_key, put_end, put_start, first_size}
use quillcache.Master.TwoPhase.{InFlight, Started, put_start-Started}
use quillcache.Master.Batch.{Item, Outcome, batch_put_start-atomic}
use quillcache.Master.Replay.{upsert_breaks_recovery}
use quillcache.Master.Recovery.{recover_from_oplog}

abbrev deps : Deps Segment
deps = record {
  ops = first_fit;
  place = allocate_random first_fit;
  below_watermark = λ used cap. ltb (used * 100) (cap * 95);
  eviction_target = λ cap. cap * 90 / 100;
  base_hash = λ key. 7;
}

abbrev alice : IdentityScope
alice = record { model_id = "m"; tokenizer_id = "t"; adapter_id = none; tenant_id = "alice" }

abbrev buffer : AllocatedBuffer
buffer = record { segment_name = "seg"; offset = 0; size = 64 }

abbrev object : ReplicaStatus → ObjectMetadata
object status = record {
  replicas = record { id = 1; status = status; ref_count = 0; content = memory buffer } ∷ [];
  identity = alice;
  lease_until = 0;
  last_access = 0;
  soft_pinned = false;
  hard_pinned = true;
}

abbrev store : ReplicaStatus → Master Segment
store status = record {
  objects = ("k", object status) ∷ [];
  allocators = first_fit.mount "seg" 1024 ∷ [];
  next_replica_id = 2;
  clock = 5;
  lease_ttl = 3;
  segment_heartbeat = ("seg", 4) ∷ [];
  segment_ttl = 10;
  segment_owner = [];
  hotness = Sketch.create 16 2;
  oplog = some [];
}

abbrev config : ReplicateConfig
config = record {
  replica_num = 1;
  with_soft_pin = false;
  with_hard_pin = true;
  preferred_segment = none;
}

found : (s : ReplicaStatus) → lookup "k" (store s).objects ≡ some (object s)
unfolding lookup
found s = refl

distinct : (s : ReplicaStatus) → Distinct (store s).objects
unfolding lookup
distinct s = (refl, tt)

-- The writer's own read of a complete object.
get_replica_list-Answer_example :
    Answer deps "k" alice (store complete) (lookup "k" (store complete).objects)
get_replica_list-Answer_example = get_replica_list-Answer deps "k" alice (store complete)

-- The object is hard pinned, so a Put of a kilobyte leaves it alone.
allocate_replicas-protects_example :
    lookup "k" (allocate_replicas deps 1024 1 none (store complete)).1.objects
    ≡ some (object complete)
allocate_replicas-protects_example =
    allocate_replicas-protects deps 1024 1 none (store complete) "k" (object complete)
      (distinct complete) (found complete) (inl refl)

-- A Put over an in-flight leftover.
put_start-Started_example :
    ((exist_key "k" (store initialized) ≡ true)
      × (put_start deps "k" alice 64 config (store initialized)
          ≡ (err object_already_exists, store initialized)))
    ⊎ ((exist_key "k" (store initialized) ≡ false)
        × Started deps "k" alice 64 config (put_start deps "k" alice 64 config (store initialized)))
put_start-Started_example = put_start-Started deps "k" alice 64 config (store initialized)

abbrev in_flight : InFlight (store initialized) "k" alice config (buffer ∷ [])
in_flight = record {
  object = object initialized;
  found = found initialized;
  owner = refl;
  unleased = refl;
  pins = (refl, refl);
  placed = unfold buffers_of in refl;
  unreadable = unfold has_complete_replica in refl;
}

abbrev items : List Item
items = ("a", alice, 16) ∷ ("b", alice, 4096) ∷ []

batch_put_start-atomic_example :
    Outcome deps config [] [] items
      (store complete)
      (batch_put_start deps items config (store complete))
batch_put_start-atomic_example = batch_put_start-atomic deps config items (store complete)

upsert_breaks_recovery_example :
    (log : List OpLogEntry) × ((put_end "k"
        (upsert_start deps "k" alice
          (first_size (object initialized).replicas)
          config
          (put_end "k" (store initialized)).1).1).1.oplog
      ≡ some log)
    × (c : ErrorCode) × (recover_from_oplog first_fit log ≡ err c)
upsert_breaks_recovery_example =
    upsert_breaks_recovery deps first_fit-Laws (store initialized) "k" (object initialized) [] alice
      config (found initialized) refl tt (omega arith)
