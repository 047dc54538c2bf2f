-- ===== src/Tests/Requests.antt =====
-- A request of a contract in an empty market.
use lord.Prelude.{◌≡◌, refl, false, none, some, [], ◌∷◌, ◌==◌, if◌then◌else◌}
use lord.Storage.Meta.{CommitmentMeta, new_meta, visibility_of}
use lord.Market.Store.{MarketStore, Table, odd}
use lord.Market.Request.{
  MarketSettings, RequestContractOptions, check_request, request_storage_contract,
}
use lord.Market.Request.Kept.{Outcome, request_storage_contract-Outcome}

abbrev stamped : CommitmentMeta
stamped = record (new_meta 9 [] 13 0 100) {
  ots_proof_path = some (1 ∷ []);
  ots_order_key = some [];
}

abbrev one_commitment : Table CommitmentMeta
one_commitment root = if root == 9 then some stamped else none

abbrev plain_settings : MarketSettings
plain_settings = record {
  mutual_aid_enabled = false;
  encrypted_only_preference = false;
  open_to_unencrypted = false;
}

abbrev three_copies : RequestContractOptions
three_copies = record { target_replication = 3; visibility = odd; mutual_aid_only = false }

abbrev empty_market : MarketStore
empty_market = record {
  contracts = λ root. none;
  replication = λ root. none;
  challenge_proofs = λ root. none;
  ecash_receipts = λ root. none;
  contract_pricing = λ root. none;
}

passes : check_request one_commitment plain_settings 9 three_copies ≡ none
unfolding check_request new_meta visibility_of
passes = refl

request_storage_contract-Outcome_example :
    Outcome one_commitment plain_settings 9 three_copies 200 empty_market
      (request_storage_contract one_commitment plain_settings 9 three_copies 200 empty_market)
request_storage_contract-Outcome_example =
    request_storage_contract-Outcome one_commitment plain_settings 9 three_copies 200 empty_market
