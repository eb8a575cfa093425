-- ===== src/Proxy.antt =====
-- The choice of a proxy, src/proxy.
pub mod Manager
pub mod Selection
pub mod Rotation
pub mod Instances
pub mod Shadowsocks
mod Tests
