-- ===== src/Trust.antt =====
-- What an agent trusts: crates/distr-hnsw/src/trust.rs.
pub mod Store
pub mod Parsed
pub mod Runs
pub mod Join
pub mod Examples
