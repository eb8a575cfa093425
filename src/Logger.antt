-- ===== src/Logger.antt =====
-- The log store, src/logger/store.go.
pub mod Store
pub mod Bounds
pub mod Views
pub mod Paging
mod Tests
