-- ===== src/Manifest.antt =====
-- The directory manifest: src/manifest.rs.
pub mod Defs
pub mod Ops
pub mod Hash
pub mod View
pub mod Disjoint
pub mod Blob
