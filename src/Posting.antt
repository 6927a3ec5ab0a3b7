-- ===== src/Posting.antt =====
-- src/pipeline/posting.ts: the posting of one approved proposal to the books of a provider.
pub mod Books
pub mod Connector
pub mod Gate
pub mod Record
pub mod Post
pub mod Grows
pub mod Keeps
pub mod Once
pub mod Gated
pub mod Stored
pub mod Recorded
mod Tests
