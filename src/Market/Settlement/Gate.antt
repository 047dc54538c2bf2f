-- ===== src/Market/Settlement/Gate.antt =====
-- A storage contract is settled exactly behind its gates.
use lord.Prelude.{
  ℕ, ◌≡◌, ◌↔◌, refl, ap, inl, inr, true, Option, none, some, ◌==◌, Bool-cases, Option-cases,
}
use lord.Payments.{ok, err, ◌>>=◌, LightningSettlementProvider, MicroPaymentProvider}
use lord.Market.Store.{MarketStore}
use lord.Market.Settlement.{
  SettlementSettings, World, Step, is_some, validate, ensure_contract_exists, challenge_replication,
  ensure_bao_challenge_gate, settle_behind, settle_storage_contract_with_providers,
}
use lord.Market.Settlement.Enough.{Passed-validate, settle_behind-Paid}
use lord.Market.Settlement.Passed.{Passed}
use lord.Market.Settlement.Paid.{err-ne-ok, Result-cases, positive, Paid, settle_after_gate-Paid}

gate-Passed :
    (world : World) (bao_root : ℕ) (options : Option ℕ) (store : MarketStore)
    → (ensure_bao_challenge_gate world bao_root options store).0 ≡ ok tt
    → Passed world bao_root options store (ensure_bao_challenge_gate world bao_root options store).1
unfolding ensure_bao_challenge_gate challenge_replication
gate-Passed world bao_root none store h =
    elim (Bool-cases (is_some (store.challenge_proofs bao_root))) [
      | inl e ↦ (e, rw e refl)
      | inr e ↦ absurd (err-ne-ok _ tt (rw e at h))
    ]
gate-Passed world bao_root (some rate) store h = elim (Bool-cases (rate == 0)) [
  | inl z ↦ absurd (err-ne-ok _ tt (rw z at h))
  | inr z ↦ elim (Bool-cases (is_some (store.contracts bao_root))) [
    | inr c ↦ absurd (err-ne-ok _ tt (rw (z, c) at h))
    | inl c ↦ elim (Option-cases (world.verify_commitment bao_root rate)) [
      | inl v ↦ absurd (err-ne-ok _ tt (rw (z, c, v) at h))
      | inr (slices, v) ↦ (positive rate z, (slices, v, rw (z, c) (rw v refl)))
    ]
  ]
]

behind_ok :
    (bao_root : ℕ) (settings : SettlementSettings) (l : LightningSettlementProvider)
    (m : MicroPaymentProvider) (gate : Step (Unit {0})) (after : MarketStore)
    → settle_behind bao_root settings l m gate ≡ (ok tt, after)
    → (gate.0 ≡ ok tt) × (gate.1 ≡ after) × Paid bao_root settings l m gate.1
unfolding settle_behind
behind_ok bao_root settings l m (err e, store) after h = absurd (err-ne-ok e tt (ap (λ s. s.0) h))
behind_ok bao_root settings l m (ok u, store) after h =
    (refl, ap (λ s. s.1) h, settle_after_gate-Paid bao_root settings l m store (ap (λ s. s.0) h))

allowed_ok :
    (store : MarketStore) (bao_root : ℕ) (options : Option ℕ) (gate : Step (Unit {0}))
    (after : MarketStore)
    → (elim (ensure_contract_exists store bao_root >>= λ _. validate options)
        as (λ _. Step (Unit {0})) [ err e ↦ (err e, store) | ok _ ↦ gate ])
      ≡ (ok tt, after)
    → (is_some (store.contracts bao_root) ≡ true) × (gate ≡ (ok tt, after))
unfolding ensure_contract_exists
allowed_ok store bao_root options gate after h =
    elim (Bool-cases (is_some (store.contracts bao_root))) [
      | inr c ↦ absurd (err-ne-ok _ tt (ap (λ s. s.0) (rw c at h)))
      | inl c ↦ elim (Result-cases (validate options)) [
        | inl (e, v) ↦ absurd (err-ne-ok e tt (ap (λ s. s.0) (rw (c, v) at h)))
        | inr (u, v) ↦ (c, rw (c, v) at h)
      ]
    ]

allowed_both :
    (store : MarketStore) (bao_root : ℕ) (options : Option ℕ)
    → is_some (store.contracts bao_root) ≡ true
    → validate options ≡ ok tt
    → (ensure_contract_exists store bao_root >>= λ _. validate options) ≡ ok tt
unfolding ensure_contract_exists
allowed_both store bao_root options c v = rw (c, v) refl

-- A settlement succeeds exactly where the contract exists, the challenge that the options ask for is
-- passed, by a proof kept before or by one made at a positive sample rate and kept now, the threshold
-- and the amount are positive, and the rail for the amount accepts the payment. From the threshold on
-- this is Lightning with the hash of the contract's invoice, or with no hash where the contract keeps
-- none: an invoice is not required. Below the threshold it is ecash with the receipt that is kept, which
-- is required.
pub settle_storage_contract_needs_gate :
    (world : World) (bao_root : ℕ) (settings : SettlementSettings) (l : LightningSettlementProvider)
    (m : MicroPaymentProvider) (options : Option ℕ) (before after : MarketStore)
    → (settle_storage_contract_with_providers world bao_root settings l m options before
        ≡ (ok tt, after))
      ↔ ((is_some (before.contracts bao_root) ≡ true)
          × Passed world bao_root options before after
          × Paid bao_root settings l m after)
unfolding settle_storage_contract_with_providers
settle_storage_contract_needs_gate world bao_root settings l m options before after =
    (needed, enough)
  where
    gate : Step (Unit {0})
    gate = ensure_bao_challenge_gate world bao_root options before

    needed :
        settle_storage_contract_with_providers world bao_root settings l m options before
          ≡ (ok tt, after)
        → (is_some (before.contracts bao_root) ≡ true)
          × Passed world bao_root options before after
          × Paid bao_root settings l m after
    needed h =
        let (found, g) =
          allowed_ok before bao_root options (settle_behind bao_root settings l m gate) after h in
        let (passed, e, p) = behind_ok bao_root settings l m gate after g in
        (found, rw e at (gate-Passed world bao_root options before passed), rw e at p)

    enough :
        (is_some (before.contracts bao_root) ≡ true)
          × Passed world bao_root options before after
          × Paid bao_root settings l m after
        → settle_storage_contract_with_providers world bao_root settings l m options before
          ≡ (ok tt, after)
    enough (found, passed, paid) =
        rw
          (
            settle_storage_contract_with_providers,
            allowed_both before bao_root options found
                (Passed-validate world bao_root options before after passed),
          )
          (settle_behind-Paid world bao_root settings l m options before after found passed paid)
