-- ===== src/Ltp.antt =====
-- The local transport protocol of crates/lord-ltp.
pub mod Chain
pub mod Mempool
