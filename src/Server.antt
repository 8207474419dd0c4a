-- ===== src/Server.antt =====
-- cmd/server: the HTTP server.
pub mod Router
pub mod Admitted
pub mod Delivery
pub mod Sync
pub mod Auditing
pub mod Serving
pub mod Settings
pub mod Timeouts
pub mod Upgrades
pub mod Main
