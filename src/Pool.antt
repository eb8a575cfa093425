-- ===== src/Pool.antt =====
-- The account pool, src/pool.
pub mod Account
pub mod State
pub mod Cookies
pub mod Queues
pub mod External
pub mod Next
pub mod Jwt
pub mod Worker
pub mod Load
pub mod Upload
pub mod Samples
pub mod Info
mod Tests
