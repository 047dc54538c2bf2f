-- ===== src/Market.antt =====
-- The crate crates/lord-market: contracts for the storage of a commitment, and their settlement.
pub mod Store
pub mod Settlement
pub mod Request
pub mod Offers
