-- ===== src/Tests.antt =====
-- Runs of the model at concrete data, and the theorems at inputs that meet their hypotheses.
pub mod Toy
mod Crypto
mod Rate
mod Vault
mod Paths
mod Manifest
pub mod Store
mod Listing
pub mod Nfs
mod NfsRuns
mod S3
mod Sftp
mod Worker
pub mod Transfer
mod Watchdog
mod Sizes
pub mod Batch
mod Download
