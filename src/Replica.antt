-- ===== src/Replica.antt =====
-- crates/quillcache-store/src/replica.rs: where a copy of an object lives and whether it is
-- readable. A `ReplicaList` maps each id to the replica that carries it, so it is the list of the
-- replicas.
use quillcache.Prelude.{
  ℕ, String, Bool, true, false, Option, none, some, List, [], ◌∷◌, ◌==◌, if◌then◌else◌,
}
use quillcache.Allocator.{AllocatedBuffer}

pub data ReplicaStatus : Type 0 where
  undefined initialized processing complete removed failed : ReplicaStatus

pub data ReplicaData : Type 0 where
  memory : AllocatedBuffer → ReplicaData
  disk : String → ℕ → ReplicaData

unfoldable pub data_segment_name : ReplicaData → Option String
data_segment_name (memory buffer) = some buffer.segment_name
data_segment_name (disk file_path object_size) = none

unfoldable pub data_size : ReplicaData → ℕ
data_size (memory buffer) = buffer.size
data_size (disk file_path object_size) = object_size

unfoldable pub is_disk : ReplicaData → Bool
is_disk (memory buffer) = false
is_disk (disk file_path object_size) = true

pub record Replica : Type 0 where
  pub id : ℕ
  pub status : ReplicaStatus
  pub ref_count : ℕ
  pub content : ReplicaData

unfoldable pub create : ℕ → ReplicaData → Replica
create id content = record { id = id; status = initialized; ref_count = 0; content = content }

abbrev pub is_complete_status : ReplicaStatus → Bool
is_complete_status complete = true
is_complete_status undefined = false
is_complete_status initialized = false
is_complete_status processing = false
is_complete_status removed = false
is_complete_status failed = false

abbrev pub is_complete : Replica → Bool
is_complete r = is_complete_status r.status

unfoldable pub segment_name : Replica → Option String
unfolding data_segment_name
segment_name r = data_segment_name r.content

unfoldable pub size : Replica → ℕ
unfolding data_size
size r = data_size r.content

abbrev pub ReplicaList : Type 0
ReplicaList = List Replica

-- `HashMap::insert` by id.
unfoldable pub insert : Replica → ReplicaList → ReplicaList
insert r [] = r ∷ []
insert r (x ∷ xs) = if x.id == r.id then r ∷ xs else x ∷ insert r xs
