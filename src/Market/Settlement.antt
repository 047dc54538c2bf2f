-- ===== src/Market/Settlement.antt =====
-- crates/lord-market/src/settlement.rs with explicit providers, and `challenge_replication` of lib.rs:
-- invoices and settlements of storage contracts. Each operation gives its result and the store it
-- leaves. Hex coding, the verification of a stored commitment and the clock are parameters.
pub mod Paid
pub mod Passed
pub mod Enough
pub mod Gate
pub mod Once
use lord.Prelude.{
  ℕ, Bool, true, false, not, ◌&&◌, ◌||◌, Option, none, some, List, [], ◌∷◌, ◌==◌, if◌then◌else◌,
}
use lord.Payments
use lord.Payments.{
  Text, PaymentBinding, SettlementResult, SettlementRail, SettlementCredentials, PaymentError,
  provider, invalid_binding, Result, ok, err, ◌>>=◌, ensure, LightningSettlementProvider,
  MicroPaymentProvider, new_coordinator, create_invoice, settle_contract, ecash_binding_reference,
}
use lord.Market.Store.{
  StorageContract, EcashReceiptRecord, ChallengeProof, MarketStore, put_contract, put_ecash_receipt,
  put_challenge_proof,
}

pub record SettlementSettings : Type 0 where
  pub threshold_sats : ℕ
  pub contract_amount_sats : ℕ
  pub challenge_fee_sats : ℕ

-- What other crates and the system give: `hex::encode`, `verify_commitment` of lord-storage with the
-- count of the slices it verified, and the time.
pub record World : Type 0 where
  pub encode : ℕ → Text
  pub verify_commitment : ℕ → ℕ → Option ℕ
  pub now : ℕ

-- A result with the store after.
abbrev pub Step : Type 0 → Type 0
Step A = Result A × MarketStore

unfoldable pub is_some {ℓ} : {A : Type ℓ} → Option A → Bool
is_some none = false
is_some (some a) = true

unfoldable pub same_text : Text → Text → Bool
same_text [] [] = true
same_text (x ∷ xs) (y ∷ ys) = (x == y) && same_text xs ys
same_text _ _ = false

-- `options.validate()`; the options are the inline sample rate.
unfoldable pub validate : Option ℕ → Result (Unit {0})
validate none = ok tt
validate (some rate) = ensure (not (rate == 0)) invalid_binding

unfoldable pub contract_amount_sats : MarketStore → ℕ → SettlementSettings → Result ℕ
contract_amount_sats store bao_root settings = elim (store.contract_pricing bao_root) [
  | some pricing ↦ if pricing.amount_sats == 0 then err provider else ok pricing.amount_sats
  | none ↦ ok settings.contract_amount_sats
]

unfoldable pub contract_binding : MarketStore → ℕ → SettlementSettings → Result PaymentBinding
contract_binding store bao_root settings = do
  amount ← contract_amount_sats store bao_root settings
  ok (record { bao_root = bao_root; purpose = Payments.storage_contract; amount_sats = amount })

unfoldable pub ensure_contract_exists : MarketStore → ℕ → Result (Unit {0})
unfolding is_some
ensure_contract_exists store bao_root = ensure (is_some (store.contracts bao_root)) provider

-- With an existing contract.
unfoldable pub set_invoice_hash : StorageContract → ℕ → MarketStore → Step (Unit {0})
set_invoice_hash contract payment_hash store = elim contract.invoice_hash [
  | some existing ↦ if existing == payment_hash then (ok tt, store) else (err provider, store)
  | none ↦ (ok tt, put_contract (record contract { invoice_hash = some payment_hash }) store)
]

unfoldable pub persist_invoice_hash : ℕ → ℕ → MarketStore → Step (Unit {0})
persist_invoice_hash bao_root payment_hash store = elim (store.contracts bao_root) [
  | none ↦ (err provider, store)
  | some contract ↦ set_invoice_hash contract payment_hash store
]

unfoldable pub set_receipt : PaymentBinding → Text → MarketStore → Step (Unit {0})
set_receipt binding reference store = elim (store.ecash_receipts binding.bao_root) [
  | some existing ↦
      if same_text existing.reference reference then (ok tt, store) else (err provider, store)
  | none ↦ (
    ok tt,
    put_ecash_receipt (record { bao_root = binding.bao_root; reference = reference }) store,
  )
]

unfoldable pub persist_ecash_receipt : World → PaymentBinding → Text → MarketStore → Step (Unit {0})
persist_ecash_receipt world binding reference store =
    if same_text reference (ecash_binding_reference world.encode binding)
    then set_receipt binding reference store
    else (err invalid_binding, store)

-- The two steps that keep what the rail of the result needs.
unfoldable pub persist_by :
    World → PaymentBinding → SettlementRail → Option ℕ → Text → MarketStore → Step (Unit {0})
persist_by world binding Payments.lightning (some payment_hash) reference store =
    persist_invoice_hash binding.bao_root payment_hash store
persist_by world binding Payments.lightning none reference store = (ok tt, store)
persist_by world binding Payments.ecash payment_hash reference store =
    persist_ecash_receipt world binding reference store

unfoldable pub persist_result :
    World → PaymentBinding → SettlementResult → MarketStore → Step (Unit {0})
persist_result world binding result store =
    persist_by world binding result.rail result.payment_hash result.reference store

unfoldable pub finish : SettlementResult → Step (Unit {0}) → Step SettlementResult
finish result (ok _, store) = (ok result, store)
finish result (err e, store) = (err e, store)

unfoldable pub create_invoice_for_contract_with_providers :
    World
    → PaymentBinding
    → LightningSettlementProvider
    → MicroPaymentProvider
    → ℕ
    → MarketStore
    → Step SettlementResult
create_invoice_for_contract_with_providers world binding l m threshold_sats store =
    let created : Result SettlementResult = (do
      _ ← ensure_contract_exists store binding.bao_root
      coordinator ← new_coordinator l m threshold_sats
      create_invoice coordinator binding) in
    elim created [
      | err e ↦ (err e, store)
      | ok result ↦ finish result (persist_result world binding result store)
    ]

-- The proof is kept where the commitment verifies at the sample rate.
unfoldable pub challenge_replication : World → ℕ → ℕ → MarketStore → Step (Unit {0})
challenge_replication world bao_root sample_rate store =
    let verified : Step (Unit {0}) = (elim (world.verify_commitment bao_root sample_rate) [
      | none ↦ (err provider, store)
      | some slices ↦ (
        ok tt,
        put_challenge_proof
            (record {
              bao_root = bao_root;
              verified_at = world.now;
              slices_verified = slices;
              sample_rate = sample_rate;
            })
            store,
      )
    ]) in
    if sample_rate == 0
    then (err provider, store)
    else if is_some (store.contracts bao_root)
    then verified
    else (err provider, store)

-- The options are validated here again.
unfoldable pub ensure_bao_challenge_gate : World → ℕ → Option ℕ → MarketStore → Step (Unit {0})
ensure_bao_challenge_gate world bao_root (some sample_rate) store =
    if sample_rate == 0
    then (err invalid_binding, store)
    else challenge_replication world bao_root sample_rate store
ensure_bao_challenge_gate world bao_root none store =
    if is_some (store.challenge_proofs bao_root) then (ok tt, store) else (err provider, store)

unfoldable pub contract_invoice_hash : MarketStore → ℕ → Result (Option ℕ)
contract_invoice_hash store bao_root = elim (store.contracts bao_root) [
  | none ↦ err provider
  | some contract ↦ ok contract.invoice_hash
]

unfoldable pub contract_ecash_receipt : MarketStore → ℕ → Option Text
contract_ecash_receipt store bao_root = elim (store.ecash_receipts bao_root) [
  | none ↦ none
  | some receipt ↦ some receipt.reference
]

-- Once the gate is passed.
unfoldable pub settle_after_gate :
    ℕ
    → SettlementSettings
    → LightningSettlementProvider
    → MicroPaymentProvider
    → MarketStore
    → Result (Unit {0})
settle_after_gate bao_root settings l m store = do
  binding ← contract_binding store bao_root settings
  invoice_hash ← contract_invoice_hash store bao_root
  coordinator ← new_coordinator l m settings.threshold_sats
  settle_contract coordinator binding (record {
    invoice_hash = invoice_hash;
    ecash_receipt = contract_ecash_receipt store bao_root;
    bao_gate_satisfied = true;
  })

unfoldable pub settle_behind :
    ℕ
    → SettlementSettings
    → LightningSettlementProvider
    → MicroPaymentProvider
    → Step (Unit {0})
    → Step (Unit {0})
settle_behind bao_root settings l m (err e, store) = (err e, store)
settle_behind bao_root settings l m (ok _, store) =
    (settle_after_gate bao_root settings l m store, store)

unfoldable pub settle_storage_contract_with_providers :
    World
    → ℕ
    → SettlementSettings
    → LightningSettlementProvider
    → MicroPaymentProvider
    → Option ℕ
    → MarketStore
    → Step (Unit {0})
settle_storage_contract_with_providers world bao_root settings l m options store =
    let allowed : Result (Unit {0}) = (do
      _ ← ensure_contract_exists store bao_root
      validate options) in
    let gate = ensure_bao_challenge_gate world bao_root options store in
    elim allowed [ err e ↦ (err e, store) | ok _ ↦ settle_behind bao_root settings l m gate ]
