-- ===== src/Transfer.antt =====
-- Uploads and downloads: the transfer half of src/worker.rs.
pub mod Multipart
pub mod Progress
pub mod Hub
pub mod Watchdog
pub mod Retry
pub mod Download
pub mod Task
pub mod Session
pub mod Upload
