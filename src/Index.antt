-- ===== src/Index.antt =====
-- The index of lord (src/index): entries of the database, their coding and the sat ranges in them.
pub mod SatRange
pub mod UtxoEntry
pub mod Updater
pub mod Reorg
