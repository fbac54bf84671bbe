-- ===== src/Hnsw.antt =====
-- The vector index: crates/distr-hnsw-index/src/hnsw.rs.
pub mod Graph
pub mod Linking
pub mod Index
pub mod Laws
pub mod Instance
pub mod Bounds
pub mod Sample
mod Examples
