-- ===== src/ManifestStore.antt =====
-- The buffer of directory manifests: src/manifest_store.rs. One operation runs at a time: the lock
-- is free when it is taken, and no other task changes the map while a network call is awaited.
pub mod Plan
pub mod State
pub mod Ops
pub mod Select
pub mod Buffer
pub mod Written
pub mod Recorded
pub mod Pending
pub mod Flush
pub mod Session
pub mod Forget
