-- ===== src/Tests/Contracts.antt =====
-- A storage contract from its invoice to its settlement.
use mathlib.Core.Option.{some-injective, none-ne-some}
use lord.Prelude.{
  ℕ, ◌≡◌, ◌↔◌, refl, sym, ap, ◌∙◌, true, false, none, some, [], ◌==◌, if◌then◌else◌, Bool-cases,
  inl, inr, ==_iff,
}
use lord.Payments
use lord.Payments.{
  PaymentBinding, SettlementResult, ok, LightningSettlementProvider, MicroPaymentProvider,
  new_coordinator, settle_contract, rail_for_amount, ensure_storage_contract_binding,
}
use lord.Market.Store
use lord.Market.Store.{MarketStore, new_pending_contract, put_challenge_proof}
use lord.Market.Settlement
use lord.Market.Settlement.{
  SettlementSettings, World, is_some, settle_storage_contract_with_providers,
  create_invoice_for_contract_with_providers,
}
use lord.Market.Settlement.Paid.{Paid}
use lord.Market.Settlement.Passed.{Passed}
use lord.Market.Settlement.Gate.{settle_storage_contract_needs_gate}
use lord.Market.Settlement.Once.{IsKeyed, Keeps, create_invoice_for_contract-Keeps}

abbrev world : World
world = record { encode = λ n. []; verify_commitment = λ root rate. some 4; now = 9 }

abbrev contract : Store.StorageContract
contract = new_pending_contract 7 3 Store.public false 1

abbrev market_with : Store.StorageContract → MarketStore
market_with kept = record {
  contracts = λ root. if root == 7 then some kept else none;
  replication = λ root. none;
  challenge_proofs = λ root. none;
  ecash_receipts = λ root. none;
  contract_pricing = λ root. none;
}

abbrev market : MarketStore
market = market_with contract

-- The contract once its invoice is made.
abbrev invoiced : MarketStore
invoiced = market_with (record contract { invoice_hash = some 5 })

abbrev node : LightningSettlementProvider
node = record {
  create_contract_invoice = λ b. ok (record {
    rail = Payments.lightning;
    amount_sats = b.amount_sats;
    reference = [];
    payment_hash = some 5;
  });
  settle_contract = λ b hash. elim hash [
    | none ↦ ok tt
    | some h ↦ if h == 5 then ok tt else Payments.err Payments.provider
  ];
}

abbrev mint : MicroPaymentProvider
mint = record {
  pay_micro = λ b. Payments.err Payments.not_implemented;
  verify_micro = λ b receipt. Payments.err Payments.not_implemented;
}

abbrev settings : SettlementSettings
settings = record { threshold_sats = 1_000; contract_amount_sats = 10_000; challenge_fee_sats = 10 }

abbrev challenged : MarketStore → MarketStore
challenged =
    put_challenge_proof
      (record { bao_root = 7; verified_at = 9; slices_verified = 4; sample_rate = 2 })

-- A contract for which no invoice was made.
settled :
    settle_storage_contract_with_providers world 7 settings node mint (some 2) market
    ≡ (ok tt, challenged market)
unfolding settle_storage_contract_with_providers Settlement.ensure_contract_exists is_some
    Settlement.validate Settlement.ensure_bao_challenge_gate Settlement.challenge_replication
    Settlement.settle_behind Settlement.settle_after_gate Settlement.contract_binding
    Settlement.contract_amount_sats Settlement.contract_invoice_hash new_coordinator settle_contract
    ensure_storage_contract_binding rail_for_amount new_pending_contract put_challenge_proof
    Payments.ensure_binding Payments.is_storage_contract Settlement.contract_ecash_receipt
settled = refl

settled_by_hash :
    settle_storage_contract_with_providers world 7 settings node mint (some 2) invoiced
    ≡ (ok tt, challenged invoiced)
unfolding settle_storage_contract_with_providers Settlement.ensure_contract_exists is_some
    Settlement.validate Settlement.ensure_bao_challenge_gate Settlement.challenge_replication
    Settlement.settle_behind Settlement.settle_after_gate Settlement.contract_binding
    Settlement.contract_amount_sats Settlement.contract_invoice_hash new_coordinator settle_contract
    ensure_storage_contract_binding rail_for_amount new_pending_contract put_challenge_proof
    Payments.ensure_binding Payments.is_storage_contract Settlement.contract_ecash_receipt
settled_by_hash = refl

settle_storage_contract_needs_gate_example :
    (settle_storage_contract_with_providers world 7 settings node mint (some 2) invoiced
      ≡ (ok tt, challenged invoiced))
    ↔ ((is_some (invoiced.contracts 7) ≡ true)
        × Passed world 7 (some 2) invoiced (challenged invoiced)
        × Paid 7 settings node mint (challenged invoiced))
settle_storage_contract_needs_gate_example =
    settle_storage_contract_needs_gate world 7 settings node mint (some 2) invoiced
      (challenged invoiced)

abbrev request : PaymentBinding
request = record { bao_root = 7; purpose = Payments.storage_contract; amount_sats = 10_000 }

market-IsKeyed : IsKeyed market
unfolding new_pending_contract
market-IsKeyed = record { keyed = λ root c e. root_of root c e }
  where
    root_of :
        (root : ℕ) (c : Store.StorageContract) → market.contracts root ≡ some c → c.bao_root ≡ root
    root_of root c e = elim (Bool-cases (root == 7)) [
      | inl q ↦
          sym (ap (λ (x : Store.StorageContract). x.bao_root) (some-injective _ _ (rw q at e)))
          ∙ sym ((==_iff root 7).0 q)
      | inr q ↦ absurd (none-ne-some c (rw q at e))
    ]

create_invoice_for_contract-Keeps_example :
    Keeps market (create_invoice_for_contract_with_providers world request node mint 1_000 market).1
create_invoice_for_contract-Keeps_example =
    create_invoice_for_contract-Keeps world request node mint 1_000 market market-IsKeyed
