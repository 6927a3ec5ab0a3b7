-- ===== src/Access.antt =====
-- src/auth/ and src/services/index.ts: who may do what, sessions, and signing in.
pub mod Guard
mod Sessions
mod Live
pub mod Cookie
mod States
mod Once
mod SignIn
mod Tests
