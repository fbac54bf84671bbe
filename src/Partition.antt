-- ===== src/Partition.antt =====
-- The partition, crates/distr-hnsw-index/src/partition.rs: the state machine over keys, slots, the
-- idempotency window, the write-ahead log and compaction.
pub mod Window
pub mod WindowLaws
pub mod WindowRestore
pub mod Index
pub mod State
pub mod Consistent
pub mod Upsert
pub mod Delete
pub mod Apply
pub mod View
pub mod Mutate
pub mod Replay
pub mod Agree
pub mod Retry
pub mod Compaction
pub mod CaptureLaws
pub mod Compacted
pub mod CatchUp
pub mod Examples
