-- ===== src/Market/Request.antt =====
-- crates/lord-market/src/lib.rs: the request of a contract for a timestamped commitment, and its status. The
-- storage is the table of its commitments. The market's tables are changed by a transaction of the
-- database, which an error drops; a failure of the database itself is left out.
pub mod Kept
use lord.Prelude.{
  ℕ, ltb, ◌==◌, not, ◌&&◌, Bool, true, false, Option, none, some, List, [], if◌then◌else◌,
}
use lord.Storage.Meta.{CommitmentMeta, is_timestamped}
use lord.Market.Store.{
  MarketNamespace, public_offers, odd_offers, ContractVisibility, public, odd, StorageContract,
  ReplicationState, MarketStore, Table, from_format, new_pending_contract, put_contract,
  initialize_replication_state,
}

pub record MarketSettings : Type 0 where
  pub mutual_aid_enabled : Bool
  pub encrypted_only_preference : Bool
  pub open_to_unencrypted : Bool

pub record RequestContractOptions : Type 0 where
  pub target_replication : ℕ
  pub visibility : ContractVisibility
  pub mutual_aid_only : Bool

pub record RequestContractResult : Type 0 where
  pub contract : StorageContract
  pub replication : ReplicationState

pub data Error : Type 0 where
  no_target mutual_aid_disabled unknown_root not_timestamped wrong_visibility : Error
  already_exists no_contract no_replication_state encrypted_and_open no_capacity no_offer_id : Error

pub data Result {ℓ} (A : Type ℓ) : Type ℓ where
  err : Error → Result A
  ok : A → Result A

unfoldable pub namespace_of : ContractVisibility → MarketNamespace
namespace_of public = public_offers
namespace_of odd = odd_offers

unfoldable pub same_namespace : MarketNamespace → MarketNamespace → Bool
same_namespace public_offers public_offers = true
same_namespace public_offers odd_offers = false
same_namespace odd_offers public_offers = false
same_namespace odd_offers odd_offers = true

unfoldable pub matches_format : ContractVisibility → ℕ → Bool
unfolding namespace_of same_namespace from_format
matches_format visibility format = same_namespace (namespace_of visibility) (from_format format)

abbrev has : {A : Type 0} → Option A → Bool
has none = false
has (some a) = true

-- What is checked before the market's tables are opened.
unfoldable pub check_commitment : Option CommitmentMeta → RequestContractOptions → Option Error
unfolding is_timestamped matches_format
check_commitment none options = some unknown_root
check_commitment (some meta) options =
    if not (is_timestamped meta)
    then some not_timestamped
    else if not (matches_format options.visibility meta.format)
    then some wrong_visibility
    else none

unfoldable pub check_request :
    Table CommitmentMeta → MarketSettings → ℕ → RequestContractOptions → Option Error
unfolding check_commitment
check_request storage settings bao_root options =
    if not (ltb 0 options.target_replication)
    then some no_target
    else if options.mutual_aid_only && not settings.mutual_aid_enabled
    then some mutual_aid_disabled
    else check_commitment (storage bao_root) options

-- The result is read behind the commit, from the tables that it leaves.
unfoldable pub read_back :
    StorageContract → MarketStore → Result RequestContractResult × MarketStore
read_back contract store = elim (store.replication contract.bao_root) [
  | none ↦ (err no_replication_state, store)
  | some replication ↦ (ok (record { contract = contract; replication = replication }), store)
]

unfoldable pub create_contract :
    StorageContract → MarketStore → Result RequestContractResult × MarketStore
unfolding put_contract initialize_replication_state read_back
create_contract contract store =
    if has (store.contracts contract.bao_root)
    then (err already_exists, store)
    else read_back contract
        (initialize_replication_state contract.bao_root (put_contract contract store))

unfoldable pub request_storage_contract :
    Table CommitmentMeta
    → MarketSettings
    → ℕ
    → RequestContractOptions
    → ℕ
    → MarketStore
    → Result RequestContractResult × MarketStore
unfolding new_pending_contract
request_storage_contract storage settings bao_root options created_at store =
    elim (check_request storage settings bao_root options) [
      | some e ↦ (err e, store)
      | none ↦
          create_contract
            (new_pending_contract bao_root options.target_replication options.visibility
              options.mutual_aid_only created_at)
            store
    ]

unfoldable pub storage_contract_exists : MarketStore → ℕ → Bool
storage_contract_exists store bao_root = has (store.contracts bao_root)

-- The contract and the state of its replication; their quotient is in floating point and left out.
unfoldable pub status_of :
    Option StorageContract → Option ReplicationState → Result RequestContractResult
status_of none replication = err no_contract
status_of (some contract) none = err no_replication_state
status_of (some contract) (some replication) =
    ok (record { contract = contract; replication = replication })

unfoldable pub market_status : MarketStore → ℕ → Result RequestContractResult
unfolding status_of
market_status store bao_root = status_of (store.contracts bao_root) (store.replication bao_root)
