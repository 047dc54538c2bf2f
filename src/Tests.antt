-- ===== src/Tests.antt =====
-- Runs on concrete inputs, and the theorems at them.
pub mod Numbers
pub mod Entries
pub mod Anchors
pub mod Queues
pub mod Contracts
pub mod Forks
pub mod Wallets
pub mod Logs
pub mod Requests
pub mod Proofs
pub mod Offers
