-- ===== src/Market/Settlement/Once.antt =====
-- What an invoice leaves for the settlement is written once.
use mathlib.Core.Option.{some-injective, none-ne-some}
use lord.Prelude.{
  ℕ, ◌≡◌, refl, ap, sym, ◌∙◌, inl, inr, Option, none, some, ◌==◌, Bool-cases, Option-cases, ==_iff,
}
use lord.Payments
use lord.Payments.{
  Text, PaymentBinding, SettlementRail, SettlementResult, Result, ok, err,
  LightningSettlementProvider, MicroPaymentProvider,
}
use lord.Market.Store.{
  StorageContract, EcashReceiptRecord, MarketStore, put_contract, put_ecash_receipt,
}
use lord.Market.Settlement.{
  World, Step, same_text, set_invoice_hash, persist_invoice_hash, set_receipt,
  persist_ecash_receipt, persist_by, persist_result, finish,
  create_invoice_for_contract_with_providers,
}

-- Contracts stand under their own roots.
pub record IsKeyed (store : MarketStore) : Type 0 where
  pub keyed : (root : ℕ) (c : StorageContract) → store.contracts root ≡ some c → c.bao_root ≡ root

-- No hash or receipt that was there is changed.
pub record Keeps (before after : MarketStore) : Type 0 where
  pub invoices :
      (root : ℕ) (c : StorageContract) (hash : ℕ)
      → before.contracts root ≡ some c
      → c.invoice_hash ≡ some hash
      → (c' : StorageContract) × (after.contracts root ≡ some c') × (c'.invoice_hash ≡ some hash)
  pub receipts :
      (root : ℕ) (r : EcashReceiptRecord)
      → before.ecash_receipts root ≡ some r
      → after.ecash_receipts root ≡ some r

Keeps-same : (store : MarketStore) → Keeps store store
Keeps-same store = record { invoices = λ root c hash e f. (c, e, f); receipts = λ root r e. e }

put_hash-Keeps :
    (root hash : ℕ) (contract : StorageContract) (store : MarketStore)
    → store.contracts root ≡ some contract
    → contract.bao_root ≡ root
    → contract.invoice_hash ≡ none
    → Keeps store (put_contract (record contract { invoice_hash = some hash }) store)
unfolding put_contract
put_hash-Keeps root hash contract store found key empty = record {
  invoices = λ k c h e f. elim (Bool-cases (k == contract.bao_root)) [
    | inl q ↦
        let k_root : k ≡ root = (==_iff k contract.bao_root).0 q ∙ key in
        let same : c ≡ contract = some-injective _ _ (sym e ∙ ap store.contracts k_root ∙ found) in
        absurd
          (none-ne-some h (sym empty ∙ ap (λ (x : StorageContract). x.invoice_hash) (sym same) ∙ f))
    | inr q ↦ (c, rw q e, f)
  ];
  receipts = λ k r e. e;
}

put_receipt-Keeps :
    (binding : PaymentBinding) (reference : Text) (store : MarketStore)
    → store.ecash_receipts binding.bao_root ≡ none
    → Keeps store
        (put_ecash_receipt (record { bao_root = binding.bao_root; reference = reference }) store)
unfolding put_ecash_receipt
put_receipt-Keeps binding reference store empty = record {
  invoices = λ k c h e f. (c, e, f);
  receipts = λ k r e. elim (Bool-cases (k == binding.bao_root)) [
    | inl q ↦
        let same : k ≡ binding.bao_root = (==_iff k binding.bao_root).0 q in
        absurd (none-ne-some r (sym empty ∙ ap store.ecash_receipts (sym same) ∙ e))
    | inr q ↦ rw q e
  ];
}

set_invoice_hash-Keeps :
    (root hash : ℕ) (contract : StorageContract) (store : MarketStore)
    → store.contracts root ≡ some contract
    → contract.bao_root ≡ root
    → Keeps store (set_invoice_hash contract hash store).1
unfolding set_invoice_hash
set_invoice_hash-Keeps root hash contract store found key =
    elim (Option-cases contract.invoice_hash) [
      | inl e ↦ rw e (put_hash-Keeps root hash contract store found key e)
      | inr (existing, e) ↦ elim (Bool-cases (existing == hash)) [
        | inl q ↦ rw (e, q) (Keeps-same store)
        | inr q ↦ rw (e, q) (Keeps-same store)
      ]
    ]

persist_invoice_hash-Keeps :
    (root hash : ℕ) (store : MarketStore)
    → IsKeyed store
    → Keeps store (persist_invoice_hash root hash store).1
unfolding persist_invoice_hash
persist_invoice_hash-Keeps root hash store k = elim (Option-cases (store.contracts root)) [
  | inl e ↦ rw (persist_invoice_hash, e) (Keeps-same store)
  | inr (contract, e) ↦
      rw (persist_invoice_hash, e)
        (set_invoice_hash-Keeps root hash contract store e (k.keyed root contract e))
]

set_receipt-Keeps :
    (binding : PaymentBinding) (reference : Text) (store : MarketStore)
    → Keeps store (set_receipt binding reference store).1
unfolding set_receipt
set_receipt-Keeps binding reference store =
    elim (Option-cases (store.ecash_receipts binding.bao_root)) [
      | inl e ↦ rw (set_receipt, e) (put_receipt-Keeps binding reference store e)
      | inr (r, e) ↦ elim (Bool-cases (same_text r.reference reference)) [
        | inl q ↦ rw (set_receipt, e, q) (Keeps-same store)
        | inr q ↦ rw (set_receipt, e, q) (Keeps-same store)
      ]
    ]

persist_by-Keeps :
    (world : World) (binding : PaymentBinding) (rail : SettlementRail) (hash : Option ℕ) (t : Text)
    (store : MarketStore)
    → IsKeyed store
    → Keeps store (persist_by world binding rail hash t store).1
unfolding persist_by persist_ecash_receipt
persist_by-Keeps world binding Payments.lightning none t store k = Keeps-same store
persist_by-Keeps world binding Payments.lightning (some hash) t store k =
    persist_invoice_hash-Keeps binding.bao_root hash store k
persist_by-Keeps world binding Payments.ecash hash t store k =
    elim (Bool-cases (same_text t (Payments.ecash_binding_reference world.encode binding))) [
      | inl e ↦ rw e (set_receipt-Keeps binding t store)
      | inr e ↦ rw e (Keeps-same store)
    ]

finish_store : (result : SettlementResult) (s : Step (Unit {0})) → (finish result s).1 ≡ s.1
unfolding finish
finish_store result (ok u, store) = refl
finish_store result (err e, store) = refl

created_Keeps :
    (world : World) (binding : PaymentBinding) (created : Result SettlementResult)
    (store : MarketStore)
    → IsKeyed store
    → Keeps store
        (elim created as (λ _. Step SettlementResult) [
          | err e ↦ (err e, store)
          | ok result ↦ finish result (persist_result world binding result store)
        ]).1
created_Keeps world binding (err e) store k = Keeps-same store
created_Keeps world binding (ok result) store k =
    rw (finish_store result (persist_result world binding result store)) (
      unfold persist_result in
      persist_by-Keeps world binding result.rail result.payment_hash result.reference store k)

-- Where contracts stand under their own roots, creating an invoice, whether or not it succeeds,
-- changes no invoice hash and no ecash receipt that was kept for any root.
pub create_invoice_for_contract-Keeps :
    (world : World) (binding : PaymentBinding) (l : LightningSettlementProvider)
    (m : MicroPaymentProvider) (threshold_sats : ℕ) (store : MarketStore)
    → IsKeyed store
    → Keeps store
        (create_invoice_for_contract_with_providers world binding l m threshold_sats store).1
unfolding create_invoice_for_contract_with_providers
create_invoice_for_contract-Keeps world binding l m threshold_sats store k =
    created_Keeps world binding _ store k
