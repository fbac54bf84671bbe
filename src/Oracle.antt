-- ===== src/Oracle.antt =====
-- Exact search, crates/distr-hnsw-index/src/oracle.rs: the order of hits, and the collector of the
-- `k` best ones.
pub mod TopK
pub mod Exact
pub mod Best
mod Examples
