-- ===== src/Market/Settlement/Paid.antt =====
-- What a settlement behind its gate means: the rail for the amount accepted the payment.
use lord.Prelude.{
  ℕ, ◌≤◌, ◌<◌, ◌≡◌, ◌≢◌, refl, ap, sym, ◌⊎◌, inl, inr, true, false, Option, none, some, ◌==◌, leb,
  arith, Bool-cases, Option-cases,
}
use lord.Payments
use lord.Payments.{
  Text, PaymentBinding, SettlementRail, SettlementCredentials, SettlementCoordinator, PaymentError,
  Result, ok, err, ◌>>=◌, ensure, LightningSettlementProvider, MicroPaymentProvider,
  new_coordinator, settle_contract, rail_for_amount, receipt_of, ensure_storage_contract_binding,
  ensure_binding, is_storage_contract,
}
use lord.Market.Store.{StorageContract, MarketStore}
use lord.Market.Settlement.{
  SettlementSettings, contract_amount_sats, contract_binding, contract_invoice_hash,
  contract_ecash_receipt, settle_after_gate,
}

pub err-ne-ok : {A : Type 0} (e : PaymentError) (a : A) → err e ≢ ok a
err-ne-ok e a h = absurd cc

ok_inj : {A : Type 0} {a b : A} → ok a ≡ ok b → a ≡ b
ok_inj {a} h = ap (value_of a) h
  where
    value_of : {A : Type 0} → A → Result A → A
    value_of d (ok a) = a
    value_of d (err e) = d

bind_ok :
    {A B : Type 0} (r : Result A) (f : A → Result B) (b : B)
    → (r >>= f) ≡ ok b
    → (a : A) × (r ≡ ok a) × (f a ≡ ok b)
bind_ok (ok a) f b h = (a, refl, h)
bind_ok (err e) f b h = absurd (err-ne-ok e b h)

pub Result-cases :
    {A : Type 0} (r : Result A) → ((e : PaymentError) × (r ≡ err e)) ⊎ ((a : A) × (r ≡ ok a))
Result-cases (ok a) = inr (a, refl)
Result-cases (err e) = inl (e, refl)

abbrev pub bound : ℕ → ℕ → PaymentBinding
bound bao_root amount = record {
  bao_root = bao_root;
  purpose = Payments.storage_contract;
  amount_sats = amount;
}

-- The rail for the amount accepted the payment: Lightning with the hash that the contract keeps, or with
-- none where it keeps none, and ecash with the receipt that is kept.
pub record Paid (bao_root : ℕ) (settings : SettlementSettings) (l : LightningSettlementProvider)
    (m : MicroPaymentProvider) (store : MarketStore) : Type 0 where
  pub amount : ℕ
  pub threshold : 0 < settings.threshold_sats
  pub priced : contract_amount_sats store bao_root settings ≡ ok amount
  pub positive : 0 < amount
  pub contract : StorageContract
  pub found : store.contracts bao_root ≡ some contract
  pub by_lightning :
      settings.threshold_sats ≤ amount
      → l.settle_contract (bound bao_root amount) contract.invoice_hash ≡ ok tt
  pub by_ecash :
      amount < settings.threshold_sats
      → (receipt : Text) × (contract_ecash_receipt store bao_root ≡ some receipt)
        × (m.verify_micro (bound bao_root amount) receipt ≡ ok tt)

pub positive : (n : ℕ) → (n == 0) ≡ false → 0 < n
positive n h = ground arith

receipt_some : (o : Option Text) (receipt : Text) → receipt_of o ≡ ok receipt → o ≡ some receipt
unfolding receipt_of
receipt_some none receipt h = absurd (err-ne-ok _ receipt h)
receipt_some (some r) receipt h = ap some (ok_inj h)

rail_paid :
    (bao_root amount threshold : ℕ) (l : LightningSettlementProvider) (m : MicroPaymentProvider)
    (c : SettlementCredentials)
    → settle_contract
        (record { lightning = l; micro = m; threshold_sats = threshold })
        (bound bao_root amount)
        c
      ≡ ok tt
    → (0 < amount)
      × (threshold ≤ amount → l.settle_contract (bound bao_root amount) c.invoice_hash ≡ ok tt)
      × (amount < threshold
          → (receipt : Text) × (c.ecash_receipt ≡ some receipt)
            × (m.verify_micro (bound bao_root amount) receipt ≡ ok tt))
unfolding settle_contract rail_for_amount ensure_storage_contract_binding ensure_binding
    is_storage_contract
rail_paid bao_root amount threshold l m c h = elim (Bool-cases (amount == 0)) [
  | inl z ↦ absurd (err-ne-ok _ tt (rw z at h))
  | inr z ↦ elim (Bool-cases c.bao_gate_satisfied) [
    | inr g ↦ absurd (err-ne-ok _ tt (rw (z, g) at h))
    | inl g ↦ elim (Bool-cases (leb threshold amount)) [
      | inl e ↦ (positive amount z, (λ _. rw (z, g, e) at h), (λ k. absurd (large e k)))
      | inr e ↦ (positive amount z, (λ k. absurd (small e k)), (λ _. verified (rw (z, g, e) at h)))
    ]
  ]
]
  where
    large : leb threshold amount ≡ true → amount < threshold → ⊥
    large e k = ground arith

    small : leb threshold amount ≡ false → threshold ≤ amount → ⊥
    small e k = ground arith

    verified :
        (receipt_of c.ecash_receipt >>= m.verify_micro (bound bao_root amount)) ≡ ok tt
        → (receipt : Text) × (c.ecash_receipt ≡ some receipt)
          × (m.verify_micro (bound bao_root amount) receipt ≡ ok tt)
    verified e =
        let (receipt, r, v) =
          bind_ok (receipt_of c.ecash_receipt) (m.verify_micro (bound bao_root amount)) tt e in
        (receipt, receipt_some c.ecash_receipt receipt r, v)

contract_found :
    (store : MarketStore) (bao_root : ℕ) (hash : Option ℕ)
    → contract_invoice_hash store bao_root ≡ ok hash
    → (contract : StorageContract) × (store.contracts bao_root ≡ some contract)
      × (contract.invoice_hash ≡ hash)
unfolding contract_invoice_hash
contract_found store bao_root hash h = elim (Option-cases (store.contracts bao_root)) [
  | inl e ↦ absurd (err-ne-ok _ hash (rw (contract_invoice_hash, e) at h))
  | inr (contract, e) ↦ (contract, e, ok_inj (rw (contract_invoice_hash, e) at h))
]

new_coordinator_ok :
    (l : LightningSettlementProvider) (m : MicroPaymentProvider) (threshold : ℕ)
    (c : SettlementCoordinator)
    → new_coordinator l m threshold ≡ ok c
    → (0 < threshold) × (c ≡ record { lightning = l; micro = m; threshold_sats = threshold })
unfolding new_coordinator
new_coordinator_ok l m threshold c h = elim (Bool-cases (threshold == 0)) [
  | inl z ↦ absurd (err-ne-ok _ c (rw z at h))
  | inr z ↦ (positive threshold z, sym (ok_inj (rw z at h)))
]

paid :
    (bao_root : ℕ) (settings : SettlementSettings) (l : LightningSettlementProvider)
    (m : MicroPaymentProvider) (store : MarketStore) (amount : ℕ) (hash : Option ℕ)
    → 0 < settings.threshold_sats
    → contract_amount_sats store bao_root settings ≡ ok amount
    → contract_invoice_hash store bao_root ≡ ok hash
    → settle_contract
        (record { lightning = l; micro = m; threshold_sats = settings.threshold_sats })
        (bound bao_root amount)
        (record {
          invoice_hash = hash;
          ecash_receipt = contract_ecash_receipt store bao_root;
          bao_gate_satisfied = true;
        })
      ≡ ok tt
    → Paid bao_root settings l m store
paid bao_root settings l m store amount hash t q i h =
    let (contract, found, hashed) = contract_found store bao_root hash i in
    let (positive, by_lightning, by_ecash) =
      rail_paid bao_root amount settings.threshold_sats l m _ h in
    record {
      amount = amount;
      threshold = t;
      priced = q;
      positive = positive;
      contract = contract;
      found = found;
      by_lightning = λ k. rw hashed (by_lightning k);
      by_ecash = by_ecash;
    }

pub settle_after_gate-Paid :
    (bao_root : ℕ) (settings : SettlementSettings) (l : LightningSettlementProvider)
    (m : MicroPaymentProvider) (store : MarketStore)
    → settle_after_gate bao_root settings l m store ≡ ok tt
    → Paid bao_root settings l m store
unfolding settle_after_gate contract_binding
settle_after_gate-Paid bao_root settings l m store h =
    elim (Result-cases (contract_amount_sats store bao_root settings)) [
      | inl (e, q) ↦ absurd (err-ne-ok e tt (rw q at h))
      | inr (amount, q) ↦ elim (Result-cases (contract_invoice_hash store bao_root)) [
        | inl (e, i) ↦ absurd (err-ne-ok e tt (rw (q, i) at h))
        | inr (hash, i) ↦ elim (Result-cases (new_coordinator l m settings.threshold_sats)) [
          | inl (e, n) ↦ absurd (err-ne-ok e tt (rw (q, i, n) at h))
          | inr (c, n) ↦
              let (t, made) = new_coordinator_ok l m settings.threshold_sats c n in
              paid bao_root settings l m store amount hash t q i (rw made at (rw (q, i, n) at h))
        ]
      ]
    ]
