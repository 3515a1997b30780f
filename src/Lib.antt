-- ===== src/Lib.antt =====
-- QuillCache: a verification library beside the Rust crates of this repository.
--
-- The repository is a store for the key-value cache of language models. Clients ask a master for
-- buffers on mounted segments, write into them, and commit; readers are handed the replicas of an
-- object only under the identity that wrote it; a conductor tells the router where a prompt's
-- prefix is cached. The library follows the crates bottom up:
--
--   Prelude, StrMap       shared names, native lists and words, and a `HashMap<String, _>` as an
--                         association list
--   Identity              crates/quillcache-core/src/lib.rs: IdentityScope, ReuseViolation (the
--                         guard `reuse_violation_against`), RequestKvHints::to_blocks
--   Allocator             crates/quillcache-store/src/allocator.rs: AllocatedBuffer; Interface is
--                         the trait BufferAllocator with the laws that its clients use; FirstFit is
--                         FirstFitBufferAllocator, and FirstFit/Instance fills the interface
--   Types, Replica        crates/quillcache-store/src/types.rs and replica.rs
--   Strategy              crates/quillcache-store/src/allocation_strategy.rs: both strategies
--   Sketch                crates/quillcache-store/src/count_min_sketch.rs
--   Master                crates/quillcache-store/src/master_service.rs: Segments (mounting, clients,
--                         heartbeats), Evict (eviction and allocation), Objects (put_start, put_end,
--                         put_revoke, get_replica_list, remove), Rewrite (batch_put_start,
--                         upsert_start), Recovery (snapshot, recover, apply_op,
--                         recover_from_oplog); the entries of op_log.rs are in Master
--   ShardedMap            crates/quillcache-store/src/sharded_map.rs: the shards of the object map
--   OpLog                 crates/quillcache-store/src/op_log.rs: the frames of the log file
--   Conductor             crates/quillcache-core/src/conductor.rs: PrefixCacheTable and its events
--   KeyMap                a `HashMap` over other keys, with the totals of its values
--   BlockStore            crates/quillcache-store/src/lib.rs: LocalKvStore; Ops moves one block, Policy
--                         is enforce_capacity and put, Serve is get, get_raw and recover
--   DiskTier              crates/quillcache-store/src/disk_tier.rs over BlockStore
--   MemoryIndex           crates/quillcache-core/src/lib.rs: the index of residencies, its reverse
--                         indexes (Buckets) and the operations of IndexBackend (Ops)
--   Cost                  crates/quillcache-core/src/lib.rs: CostModel
--   DataPlane             crates/quillcache-store/src/lib.rs: StoreDataPlane; Ops is enforce_capacity,
--                         Place is place, Calls are put, get and the removals, Metrics the reports
--   Replication           crates/quillcache-core/src/replication.rs: plan_replications (Plan) and
--                         HotnessTracker (Hotness)
--   LayerPipeline         crates/quillcache-transfer-engine/src/slice_pool.rs: run_layers_with_notify as
--                         a state and a step for each completion; Slices is slices, layer_slices
--   EndpointStore         crates/quillcache-transfer-engine/src/endpoint_store.rs: the bounded cache
--                         of connections, FIFO or SIEVE
--
-- The master holds its allocators behind the interface, and takes from outside, in the record
-- `Deps`, the allocation strategy, the two floating-point watermark tests and the standard
-- library's hash. Each operation is a function from the master's state to an answer and a state:
-- the locks of the source only order the accesses of one call, and the operations here are whole
-- calls. The object map is one map here; its shards are modelled on their own. `ErrorCode` results
-- are the type `Result`. The order of a `HashMap` is that of the list.
--
-- Machine words: `u64` and `u32` sums that the source lets wrap or saturate are written out
-- (Prelude/Words); offsets and sizes are natural numbers with their bound as part of validity. The
-- sums of sizes and the counters of BlockStore, and the counters of DataPlane, are plain numbers;
-- DataPlane sums the sizes that callers give it at 64 bits.
--
-- Recursion: the loops over lists are structural. OpLog.replay_loop takes the number of bytes as
-- fuel, which is enough since each frame takes eight of them at least. EndpointStore.sieve_scan
-- takes two turns around the order as fuel, which is enough since a turn clears every second chance.
-- The two loops of BlockStore.Policy and the loop of DataPlane.Ops take one more round than there
-- are blocks, which is enough since each round takes a block out of the tier. LayerPipeline.release
-- takes one more round than `done` has elements, and LayerPipeline.Slices as many as there are bytes,
-- which is enough while no offset wraps at 64 bits.
--
-- The disk of BlockStore is its block files by number and the list of the records in its log; how a
-- write ends (all of it durable, no block file or a part of it, no log record) is an argument of the
-- operation that writes, and which files cannot be deleted is a field of the disk.
--
-- Parameters, not under this repository's own code: the JSON codec and the CRC of the log and of a
-- block file, the hash of a key, the outcome of a write, the order in which the tasks of a transfer
-- complete, the count of references of a connection, and the comparison of two floating-point ratios.
--
-- Not modelled: files and the network, the transports of the transfer engine, etcd, the lookup by
-- regular expression, floating-point costs, and the size-binned allocator.
pub mod Prelude
pub mod StrMap
pub mod Identity
pub mod Allocator
pub mod Types
pub mod Replica
pub mod Strategy
pub mod Sketch
pub mod Master
pub mod OpLog
pub mod Conductor
pub mod EndpointStore
pub mod ShardedMap
pub mod KeyMap
pub mod BlockStore
pub mod DiskTier
pub mod MemoryIndex
pub mod Cost
pub mod DataPlane
pub mod Replication
pub mod LayerPipeline
