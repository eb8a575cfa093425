-- ===== src/Pool/External.antt =====
-- src/pool/pool.go, the tasks for the external registrar: an account whose credentials need a
-- refresh from outside is leased to a worker, and comes back by an upload or by a failure report.
pub mod Defs
pub mod Claim
pub mod Fail
pub mod Backoff
pub mod Leases
pub mod Tickets
pub mod Round
pub mod Failures
pub mod Loop
mod Tests
