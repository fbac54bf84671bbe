-- ===== src/Access.antt =====
-- Who may do what: the scopes of API keys, crates/distr-hnsw/src/auth.rs.
pub mod Scopes
pub mod Order
pub mod RoundTrip
pub mod Examples
