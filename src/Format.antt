-- ===== src/Format.antt =====
-- Encrypted objects: crates/distr-hnsw/src/crypto.rs and format.rs.
pub mod Crypto
pub mod Chunks
pub mod Types
pub mod Encode
pub mod Decode
pub mod Objects
pub mod Envelope
pub mod PayloadCodec
pub mod RoundTrip
pub mod Sound
pub mod Kinds
pub mod Sample
pub mod Examples
