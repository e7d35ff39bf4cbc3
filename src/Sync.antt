-- ===== src/Sync.antt =====
pub mod Validate
pub mod Upsert
pub mod Batch
pub mod Push
pub mod Pull
pub mod Overlap
