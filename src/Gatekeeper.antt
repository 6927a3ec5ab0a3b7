-- ===== src/Gatekeeper.antt =====
-- src/gatekeeper and src/swarmsync/severity.ts: whether an incoming invoice is forwarded to the
-- accounting system's capture address, or held for a person.
pub mod Severity
pub mod State
pub mod Gatekeep
pub mod Clean
pub mod Twice
mod Tests
