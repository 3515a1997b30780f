-- ===== src/Replication/Examples.antt =====
-- One hot prefix on a busy worker, and one request.
use quillcache.Prelude.{ℕ, ◌≤◌, ◌≡◌, refl, none, List, [], ◌∷◌, if◌then◌else◌, length, All, add32}
use quillcache.Identity.{KvBlockKey, IdentityScope}
use quillcache.KeyMap.{find}
use quillcache.KeyMap.Laws.{Unique}
use quillcache.MemoryIndex.{scoped_hash_key}
use quillcache.Replication.{ReplicationConfig, PrefixResidency, WorkerLoad}
use quillcache.Replication.Plan.{plan_replications}
use quillcache.Replication.Sound.{Justified, plan_replications-Justified}
use quillcache.Replication.Hotness.{
  Counts, touched, touches, count_of, halved, record_request, decay, record_request-count,
  decay-count,
}

abbrev scope : IdentityScope
scope = record { model_id = "m"; tokenizer_id = "t"; adapter_id = none; tenant_id = "a" }

abbrev config : ReplicationConfig
config = record { target_replicas = 2; hotness_threshold = 8; max_actions = 32 }

abbrev hot_prefix : PrefixResidency
hot_prefix = record { scope = scope; prefix_hash = "p"; holders = "w1" ∷ []; accesses = 20 }

abbrev cold_prefix : PrefixResidency
cold_prefix = record { scope = scope; prefix_hash = "q"; holders = "w1" ∷ []; accesses = 3 }

abbrev loads : List WorkerLoad
loads =
    record { id = "w1"; load = 9 }
    ∷ record { id = "w2"; load = 4 }
    ∷ record { id = "w3"; load = 1 }
    ∷ []

plan_replications-Justified_example :
    (length (plan_replications config (hot_prefix ∷ cold_prefix ∷ []) loads) ≤ config.max_actions)
    × All
        (Justified config (hot_prefix ∷ cold_prefix ∷ []) loads)
        (plan_replications config (hot_prefix ∷ cold_prefix ∷ []) loads)
plan_replications-Justified_example =
    plan_replications-Justified config (hot_prefix ∷ cold_prefix ∷ []) loads

-- The hot prefix goes to the idle worker.
planned :
    plan_replications config (hot_prefix ∷ cold_prefix ∷ []) loads
    ≡ record {
      scope = scope;
      prefix_hash = "p";
      from_worker = "w1";
      to_worker = "w3";
      accesses = 20;
    }
      ∷ []
unfolding plan_replications
planned = refl

abbrev block : ℕ → KvBlockKey
block i = record {
  model_id = "m";
  tokenizer_id = "t";
  adapter_id = none;
  tenant_id = "a";
  prefix_hash = "p";
  block_hash = "h";
  block_index = i;
  token_count = 16;
}

abbrev counts : Counts
counts = (touched (block 0), 7) ∷ []

record_request-count_example :
    count_of (touched (block 0)) (record_request (block 0 ∷ block 1 ∷ []) counts) ≡ (
      if touches (touched (block 0)) (block 0 ∷ block 1 ∷ [])
      then add32 (count_of (touched (block 0)) counts) 1
      else count_of (touched (block 0)) counts)
record_request-count_example =
    record_request-count (touched (block 0)) (block 0 ∷ block 1 ∷ []) counts

counts-Unique : Unique counts
unfolding find
counts-Unique = (refl, tt)

decay-count_example :
    find (touched (block 0)) (decay counts) ≡ halved (find (touched (block 0)) counts)
decay-count_example = decay-count (touched (block 0)) counts counts-Unique
