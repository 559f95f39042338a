-- ===== src/Crypto.antt =====
-- End-to-end encryption: src/crypto.rs.
pub mod Layout
pub mod Primitives
pub mod Stream
pub mod Names
pub mod Vault
