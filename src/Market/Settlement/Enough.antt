-- ===== src/Market/Settlement/Enough.antt =====
-- What is enough for a storage contract to be settled.
use lord.Prelude.{
  ℕ, ◌≤◌, ◌<◌, ◌≡◌, refl, inl, inr, true, false, Option, none, some, ◌==◌, leb, arith, Bool-cases,
}
use lord.Payments.{
  Text, ok, LightningSettlementProvider, MicroPaymentProvider, new_coordinator, settle_contract,
  rail_for_amount, receipt_of, ensure_storage_contract_binding, ensure_binding, is_storage_contract,
}
use lord.Market.Store.{StorageContract, MarketStore}
use lord.Market.Settlement.{
  SettlementSettings, World, is_some, validate, contract_binding, contract_invoice_hash,
  contract_ecash_receipt, settle_after_gate, settle_behind, challenge_replication,
  ensure_bao_challenge_gate,
}
use lord.Market.Settlement.Paid.{Paid, bound}
use lord.Market.Settlement.Passed.{Passed}

not_zero : (n : ℕ) → 0 < n → (n == 0) ≡ false
not_zero n h = ground arith

rail_accepts :
    (bao_root amount threshold : ℕ) (l : LightningSettlementProvider) (m : MicroPaymentProvider)
    (hash : Option ℕ) (kept : Option Text)
    → 0 < amount
    → (threshold ≤ amount → l.settle_contract (bound bao_root amount) hash ≡ ok tt)
    → (amount < threshold
        → (receipt : Text) × (kept ≡ some receipt)
          × (m.verify_micro (bound bao_root amount) receipt ≡ ok tt))
    → settle_contract
        (record { lightning = l; micro = m; threshold_sats = threshold })
        (bound bao_root amount)
        (record { invoice_hash = hash; ecash_receipt = kept; bao_gate_satisfied = true })
      ≡ ok tt
unfolding settle_contract rail_for_amount ensure_storage_contract_binding ensure_binding
    is_storage_contract receipt_of
rail_accepts bao_root amount threshold l m hash kept h by_lightning by_ecash =
    elim (Bool-cases (leb threshold amount)) [
      | inl e ↦ rw (not_zero amount h, e) (by_lightning (ground arith))
      | inr e ↦ let (receipt, k, v) = by_ecash (ground arith) in rw (not_zero amount h, e, k) v
    ]

coordinator_made :
    (l : LightningSettlementProvider) (m : MicroPaymentProvider) (threshold : ℕ)
    → 0 < threshold
    → new_coordinator l m threshold
      ≡ ok (record { lightning = l; micro = m; threshold_sats = threshold })
unfolding new_coordinator
coordinator_made l m threshold h = rw (not_zero threshold h) refl

hash_kept :
    (store : MarketStore) (bao_root : ℕ) (contract : StorageContract)
    → store.contracts bao_root ≡ some contract
    → contract_invoice_hash store bao_root ≡ ok contract.invoice_hash
unfolding contract_invoice_hash
hash_kept store bao_root contract e = rw (contract_invoice_hash, e) refl

Paid-settle_after_gate :
    (bao_root : ℕ) (settings : SettlementSettings) (l : LightningSettlementProvider)
    (m : MicroPaymentProvider) (store : MarketStore)
    → Paid bao_root settings l m store
    → settle_after_gate bao_root settings l m store ≡ ok tt
unfolding settle_after_gate contract_binding
Paid-settle_after_gate bao_root settings l m store p =
    rw
      (
        p.priced,
        hash_kept store bao_root p.contract p.found,
        coordinator_made l m settings.threshold_sats p.threshold,
      )
      (rail_accepts bao_root p.amount settings.threshold_sats l m p.contract.invoice_hash
        (contract_ecash_receipt store bao_root) p.positive p.by_lightning p.by_ecash)

Passed-gate :
    (world : World) (bao_root : ℕ) (options : Option ℕ) (before after : MarketStore)
    → is_some (before.contracts bao_root) ≡ true
    → Passed world bao_root options before after
    → ensure_bao_challenge_gate world bao_root options before ≡ (ok tt, after)
unfolding ensure_bao_challenge_gate challenge_replication
Passed-gate world bao_root none before after c (kept, same) = rw (kept, same) refl
Passed-gate world bao_root (some rate) before after c (h, (slices, v, e)) =
    rw (not_zero rate h, c, e) (rw v refl)

pub Passed-validate :
    (world : World) (bao_root : ℕ) (options : Option ℕ) (before after : MarketStore)
    → Passed world bao_root options before after
    → validate options ≡ ok tt
unfolding validate
Passed-validate world bao_root none before after p = refl
Passed-validate world bao_root (some rate) before after (h, p) = rw (not_zero rate h) refl

pub settle_behind-Paid :
    (world : World) (bao_root : ℕ) (settings : SettlementSettings) (l : LightningSettlementProvider)
    (m : MicroPaymentProvider) (options : Option ℕ) (before after : MarketStore)
    → is_some (before.contracts bao_root) ≡ true
    → Passed world bao_root options before after
    → Paid bao_root settings l m after
    → settle_behind bao_root settings l m (ensure_bao_challenge_gate world bao_root options before)
      ≡ (ok tt, after)
unfolding settle_behind
settle_behind-Paid world bao_root settings l m options before after c p paid =
    rw (Passed-gate world bao_root options before after c p)
      (rw (Paid-settle_after_gate bao_root settings l m after paid) refl)
