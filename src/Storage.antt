-- ===== src/Storage.antt =====
-- The crate crates/lord-storage: the times of the commitments as its migrations read them from the log.
pub mod BrecciaTimestamps
pub mod Meta
pub mod OtsOrder
