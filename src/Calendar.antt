-- ===== src/Calendar.antt =====
-- The calendar of crates/lord-calendar.
pub mod Queue
pub mod Merkle
pub mod BitcoinMerkle
