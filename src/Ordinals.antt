-- ===== src/Ordinals.antt =====
-- The crate crates/ordinals: integer codings, and the numbering of satoshis.
pub mod Varint
pub mod Constants
pub mod Epoch
pub mod Height
pub mod Sat
pub mod Charm
