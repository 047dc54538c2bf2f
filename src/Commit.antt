-- ===== src/Commit.antt =====
-- The crate crates/lord-commit: the log of commitments and its entries.
pub mod BrecciaLog
pub mod Entry
