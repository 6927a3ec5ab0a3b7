-- ===== src/Session.antt =====
-- src/qbdesktop/session.ts: the sessions of the QuickBooks Web Connector and their queues.
pub mod Work
pub mod Registry
pub mod Guard
pub mod Drain
mod Tests
