-- ===== src/AdminAuth.antt =====
-- The administrator's sign-in, src/adminauth.
pub mod Sessions
pub mod Store
pub mod SessionLaws
pub mod Passwords
mod Tests
