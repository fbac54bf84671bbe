-- ===== src/Wal.antt =====
-- The write-ahead log, crates/distr-hnsw-index/src/wal.rs. `Entry` and `Frame` are the bytes of one
-- entry, `Segment` the file of a segment and its reader, `Writer` the appending side; the other
-- modules hold what is proved of them.
pub mod Entry
pub mod Decode
pub mod EntryCodec
pub mod Frame
pub mod FrameWritten
pub mod FrameRead
pub mod Segment
pub mod SegmentHeader
pub mod SegmentRead
pub mod SegmentSound
pub mod SegmentRepair
pub mod Recovery
pub mod Writer
pub mod WriterLaws
pub mod WriterRuns
pub mod Durability
pub mod Open
pub mod Examples
