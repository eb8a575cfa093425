-- ===== src/Api.antt =====
-- src/main.go, the HTTP server's own logic: what it counts, whom it lets in, how its configuration is
-- put together, what the administrator's lists show, and how a chat becomes a prompt.
pub mod Stats
pub mod Auth
pub mod Config
pub mod Admin
pub mod Prompt
pub mod Chat
