-- ===== src/Repository.antt =====
-- internal/repository
pub mod Batch
pub mod Memory
pub mod Retriable
pub mod Postgres
pub mod Storage
