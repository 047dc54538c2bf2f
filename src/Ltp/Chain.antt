-- ===== src/Ltp/Chain.antt =====
-- crates/lord-ltp/src/chain.rs: how long and how deep the queues of a chain are.
use lord.Prelude.{ℕ}

pub data LtpChain : Type 0 where
  mainnet regtest signet testnet testnet4 : LtpChain

pub record ChainProfile : Type 0 where
  pub chain_id : ℕ
  pub ttl_secs : ℕ
  pub max_depth : ℕ

unfoldable pub chain_profile : LtpChain → ChainProfile
chain_profile mainnet = record { chain_id = 0; ttl_secs = 86400; max_depth = 10000 }
chain_profile signet = record { chain_id = 1; ttl_secs = 3600; max_depth = 5000 }
chain_profile testnet = record { chain_id = 2; ttl_secs = 7200; max_depth = 5000 }
chain_profile testnet4 = record { chain_id = 2; ttl_secs = 7200; max_depth = 5000 }
chain_profile regtest = record { chain_id = 3; ttl_secs = 300; max_depth = 1000 }
