-- ===== src/Rotation.antt =====
-- src/backup/rotation.ts: which backups the nightly rotation deletes, and the deletion itself.
pub mod Select
pub mod Slots
pub mod Retain
pub mod Policy
pub mod Prune
mod Tests
