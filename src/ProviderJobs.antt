-- ===== src/ProviderJobs.antt =====
-- src/qbdesktop/durable-jobs.ts: the durable queue of QuickBooks Desktop work. PostgreSQL is the
-- sole authority, so the state is the table `provider_jobs` with the rows of `connections` that
-- `leaseNext` reads, and each method is a function from one state of the tables to the next.
pub mod Row
pub mod Key
pub mod Table
pub mod Lease
pub mod Outcome
pub mod Step
pub mod Rows
pub mod Lifecycle
pub mod Recovery
pub mod Trace
pub mod Replay
pub mod Identity
pub mod Order
pub mod Probes
pub mod Once
mod Tests
