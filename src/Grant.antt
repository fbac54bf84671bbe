-- ===== src/Grant.antt =====
-- Capability grants and key sets, crates/distr-hnsw/src/grant.rs.
pub mod Primitives
pub mod Types
pub mod Body
pub mod BodyCodec
pub mod Canonical
pub mod Keys
pub mod KeysCodec
pub mod Signed
pub mod Rotation
pub mod Sample
pub mod Examples
pub mod Verify
pub mod Decoded
pub mod Admitted
pub mod Accepted
pub mod Issued
