-- ===== src/Coordinator.antt =====
-- The coordinator core, crates/cordn-core/src/coordinator.rs: subscribers, their registry, and the
-- service over a storage backend.
pub mod Subscriber
pub mod Registry
pub mod Service
