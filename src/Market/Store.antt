-- ===== src/Market/Store.antt =====
-- crates/lord-market/src/types.rs and store.rs: the tables of the market, as functions of their keys. A
-- failure of the database is left out. A root of 32 bytes is the number that the bytes write.
use lord.Prelude.{ℕ, Bool, Option, none, some, ◌%◌, ◌==◌, if◌then◌else◌, List, []}
use lord.Payments.{Text}

pub data MarketNamespace : Type 0 where
  public_offers odd_offers : MarketNamespace

pub data ContractVisibility : Type 0 where
  public odd : ContractVisibility

pub data ContractStatus : Type 0 where
  pending active fulfilled cancelled : ContractStatus

pub record StorageContract : Type 0 where
  pub bao_root : ℕ
  pub target_replication : ℕ
  pub visibility : ContractVisibility
  pub mutual_aid_only : Bool
  pub created_at : ℕ
  pub status : ContractStatus
  pub invoice_hash : Option ℕ

pub record EcashReceiptRecord : Type 0 where
  pub bao_root : ℕ
  pub reference : Text

pub record ContractPricingRecord : Type 0 where
  pub bao_root : ℕ
  pub amount_sats : ℕ

pub record ChallengeProof : Type 0 where
  pub bao_root : ℕ
  pub verified_at : ℕ
  pub slices_verified : ℕ
  pub sample_rate : ℕ

pub record ReplicationState : Type 0 where
  pub bao_root : ℕ
  pub observed_replication : ℕ
  pub provider_peers : List Text

abbrev pub Table : Type 0 → Type 0
Table A = ℕ → Option A

unfoldable pub put : {A : Type 0} → ℕ → A → Table A → Table A
put key value table k = if k == key then some value else table k

pub record MarketStore : Type 0 where
  pub contracts : Table StorageContract
  pub replication : Table ReplicationState
  pub challenge_proofs : Table ChallengeProof
  pub ecash_receipts : Table EcashReceiptRecord
  pub contract_pricing : Table ContractPricingRecord

unfoldable pub put_contract : StorageContract → MarketStore → MarketStore
unfolding put
put_contract contract store = record store {
  contracts = put contract.bao_root contract store.contracts;
}

unfoldable pub put_ecash_receipt : EcashReceiptRecord → MarketStore → MarketStore
unfolding put
put_ecash_receipt receipt store = record store {
  ecash_receipts = put receipt.bao_root receipt store.ecash_receipts;
}

unfoldable pub put_challenge_proof : ChallengeProof → MarketStore → MarketStore
unfolding put
put_challenge_proof proof store = record store {
  challenge_proofs = put proof.bao_root proof store.challenge_proofs;
}

-- `none` where the amount is refused.
unfoldable pub put_contract_pricing : ContractPricingRecord → MarketStore → Option MarketStore
unfolding put
put_contract_pricing pricing store =
    if pricing.amount_sats == 0
    then none
    else some
        (record store { contract_pricing = put pricing.bao_root pricing store.contract_pricing })

unfoldable pub put_replication_state : ReplicationState → MarketStore → MarketStore
unfolding put
put_replication_state state store = record store {
  replication = put state.bao_root state store.replication;
}

unfoldable pub initialize_replication_state : ℕ → MarketStore → MarketStore
initialize_replication_state bao_root store = elim (store.replication bao_root) [
  | some state ↦ store
  | none ↦
      put_replication_state
        (record { bao_root = bao_root; observed_replication = 0; provider_peers = [] }) store
]

unfoldable pub from_format : ℕ → MarketNamespace
from_format format = if format % 2 == 0 then public_offers else odd_offers

unfoldable pub new_pending_contract : ℕ → ℕ → ContractVisibility → Bool → ℕ → StorageContract
new_pending_contract bao_root target_replication visibility mutual_aid_only created_at = record {
  bao_root = bao_root;
  target_replication = target_replication;
  visibility = visibility;
  mutual_aid_only = mutual_aid_only;
  created_at = created_at;
  status = pending;
  invoice_hash = none;
}
