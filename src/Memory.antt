-- ===== src/Memory.antt =====
-- The in-memory storage backend, crates/cordn-core/src/storage/in_memory.rs.
pub mod State
pub mod KeyPackages
pub mod Welcomes
pub mod JoinRequests
pub mod Messages
