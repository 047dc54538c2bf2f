-- ===== src/Lib.antt =====
-- Models of lord, a satoshi index and timestamping service, and what is proved of them.
--
-- The parts, and how they meet:
-- Prelude: numbers, lists, options and bits that the others share.
-- Ordinals: the crate crates/ordinals. Varint is crates/ordinals/src/varint.rs (`encode_to_vec`,
--   `decode`); Epoch and Height are the schedule of subsidies (epoch.rs, height.rs); Sat has `Sat` with
--   its height, degree, decimal form, rarity and name (sat.rs, degree.rs, decimal_sat.rs, rarity.rs);
--   Charm has the charms' bits and `Sat::charms` (charm.rs).
-- Index: src/index. SatRange is the form of a range of sats in 11 bytes (src/index/entry.rs).
--   UtxoEntry is an output's record in the database (src/index/utxo_entry.rs): it codes lengths with
--   Ordinals.Varint and holds ranges in the form of SatRange. Updater is `index_transaction_sats` of
--   src/index/updater.rs, which moves the ranges of a transaction's inputs to its outputs' UtxoEntry.
--   Reorg is src/index/reorg.rs: the search for a fork, and savepoints.
-- Calendar: the crate crates/lord-calendar. Queue is the queue of digests
--   (crates/lord-calendar/src/queue.rs); Merkle and BitcoinMerkle are the two trees of
--   crates/lord-calendar/src/merkle.rs.
-- Ltp: the crate crates/lord-ltp. Chain is the profile of a chain (crates/lord-ltp/src/chain.rs),
--   Mempool the three queues (crates/lord-ltp/src/mempool.rs), whose digests Calendar.Queue takes as
--   priorities.
-- Payments: the crate crates/lord-payments, its bindings (types.rs in its src) and coordinator
--   (coordinator.rs); the traits of providers are records of operations.
-- Market: the crate crates/lord-market. Store is its tables (store.rs and types.rs in its src),
--   Settlement the invoices and settlements (settlement.rs), which call the coordinator of Payments.
--   Request is the request of a contract and its status (lib.rs), which reads the metadata of Storage.
--   Offers is what providers offer (lib.rs and store.rs); its database is a parameter with its laws.
-- Wallet: src/wallet/transaction_builder.rs. Wallet has the builder's state; Cardinal selects outputs
--   without runes, inscription or lock (`select_cardinal_utxo`); Passes has the passes of
--   `build_transaction` from `select_outgoing` to `deduct_fee`; Build has `new`, `build_transaction` and
--   the asserts of `build`, in groups.
-- Commit: the crate crates/lord-commit. BrecciaLog is the file of blobs (breccia_log.rs in its src),
--   Entry the two forms of a blob (entry.rs).
-- Storage: the crate crates/lord-storage. BrecciaTimestamps reads the log of Commit
--   (breccia_timestamps.rs in its src), OtsOrder walks a proof to its order key (ots_order.rs), Meta is
--   what is kept of a commitment (meta.rs).
-- Tests: the definitions and the theorems at concrete inputs.
--
-- Conventions. A `u32`, `u64` or `u128` is a number, with the wrap of a release build written where an
-- operation could overflow. A byte is a number, a slice or a `Vec` a list. A method that changes its
-- receiver returns the new one. A panic is `none`, or `panic` in Index.Updater; `Result` is a data type
-- of the module; where a loop takes fuel it may have a constructor `diverged` for the end of the fuel.
--
-- Loops. `encode_to_vec`, `name` and `palindrome` recurse on well-founded `<`. The other unbounded
-- loops take fuel: `fill` of Index.Updater one unit for each input range, since a round that does not
-- end the output uses up a range; the trees one for each leaf, since a level has half the digests of
-- the one below; chunks one for each byte. The loops of Wallet.Passes take one unit for each unspent
-- output and one more, and each round uses an output up; the walk of Storage.OtsOrder takes one for each
-- step of the proof; the readers of the log one for each byte. The theorems on these show that this is
-- enough, but for the reader of Storage.BrecciaTimestamps, whose loop is that of the log's own.
--
-- What other crates do is a parameter: the hashes of opentimestamps and bitcoin, hex coding, the
-- verification of a stored commitment, the providers of payments, the size of a transaction, the fee for
-- a size (a rate in floating point), the rules for scripts, the codec of entries, and the database of
-- offers. Whether a file was saved is an argument of the mempool's operations, and the identifier drawn
-- for an offer one of its publication. Two constants of the bitcoin crate, the halving
-- interval of 210,000 blocks and the difficulty period of 2,016, are written out in Ordinals.Constants.
--
-- Not modelled: text before it is split into numbers (the parsers of decimals and degrees), floating
-- point (percentiles, replication factors), the databases, files, RPC and HTTP, the rest of the
-- wallet, which calls the node, live providers, the rest of the storage and commitment crates
-- (encryption, CBOR, Bao trees, calendars), the command line and the explorer.
pub mod Prelude
pub mod Calendar
pub mod Commit
pub mod Index
pub mod Ltp
pub mod Market
pub mod Ordinals
pub mod Payments
pub mod Storage
pub mod Wallet
pub mod Tests
