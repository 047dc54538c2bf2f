-- ===== src/Payments.antt =====
-- The crate crates/lord-payments: payments bound to a commitment, and the coordinator that chooses
-- between Lightning and ecash. A root or hash of 32 bytes is the number that the bytes write, a text is
-- the list of its bytes, and `hex::encode` is a parameter. The messages of errors are left out.
use lord.Prelude.{
  ℕ, Bool, true, false, not, Option, none, some, List, [], ◌∷◌, ◌++◌, leb, ◌==◌, if◌then◌else◌,
}

abbrev pub Text : Type 0
Text = List ℕ

pub data PaymentPurpose : Type 0 where
  storage_contract challenge_fee ltp_micro_payment : PaymentPurpose

pub record PaymentBinding : Type 0 where
  pub bao_root : ℕ
  pub purpose : PaymentPurpose
  pub amount_sats : ℕ

pub data SettlementRail : Type 0 where
  lightning ecash : SettlementRail

pub record SettlementResult : Type 0 where
  pub rail : SettlementRail
  pub amount_sats : ℕ
  pub reference : Text
  pub payment_hash : Option ℕ

pub record SettlementCredentials : Type 0 where
  pub invoice_hash : Option ℕ
  pub ecash_receipt : Option Text
  pub bao_gate_satisfied : Bool

pub data PaymentError : Type 0 where
  not_implemented invalid_binding provider : PaymentError

pub data Result {ℓ} (A : Type ℓ) : Type ℓ where
  ok : A → Result A
  err : PaymentError → Result A

infixl 5 ◌>>=◌
abbrev pub ◌>>=◌ {ℓ κ} : {A : Type ℓ} {B : Type κ} → Result A → (A → Result B) → Result B
ok a >>= f = f a
err e >>= f = err e

abbrev pub ensure : Bool → PaymentError → Result (Unit {0})
ensure true e = ok tt
ensure false e = err e

-- `storage_contract`, `challenge_fee` and `ltp_micro_payment`
unfoldable pub purpose_label : PaymentPurpose → Text
purpose_label storage_contract =
    b's' ∷ b't' ∷ b'o' ∷ b'r' ∷ b'a' ∷ b'g' ∷ b'e' ∷ b'_' ∷ b'c' ∷ b'o' ∷ b'n' ∷ b't' ∷ b'r' ∷ b'a'
    ∷ b'c' ∷ b't' ∷ []
purpose_label challenge_fee =
    b'c' ∷ b'h' ∷ b'a' ∷ b'l' ∷ b'l' ∷ b'e' ∷ b'n' ∷ b'g' ∷ b'e' ∷ b'_' ∷ b'f' ∷ b'e' ∷ b'e' ∷ []
purpose_label ltp_micro_payment =
    b'l' ∷ b't' ∷ b'p' ∷ b'_' ∷ b'm' ∷ b'i' ∷ b'c' ∷ b'r' ∷ b'o' ∷ b'_' ∷ b'p' ∷ b'a' ∷ b'y' ∷ b'm'
    ∷ b'e' ∷ b'n' ∷ b't' ∷ []

-- `ecash:binding:{}:{}`
unfoldable pub ecash_binding_reference : (ℕ → Text) → PaymentBinding → Text
ecash_binding_reference encode binding =
    (b'e' ∷ b'c' ∷ b'a' ∷ b's' ∷ b'h' ∷ b':' ∷ b'b' ∷ b'i' ∷ b'n' ∷ b'd' ∷ b'i' ∷ b'n' ∷ b'g' ∷ b':'
      ∷ [])
    ++ encode binding.bao_root
    ++ (b':' ∷ purpose_label binding.purpose)

unfoldable pub is_storage_contract : PaymentPurpose → Bool
is_storage_contract storage_contract = true
is_storage_contract _ = false

unfoldable pub is_challenge_fee : PaymentPurpose → Bool
is_challenge_fee challenge_fee = true
is_challenge_fee _ = false

pub record LightningSettlementProvider : Type 0 where
  pub create_contract_invoice : PaymentBinding → Result SettlementResult
  pub settle_contract : PaymentBinding → Option ℕ → Result (Unit {0})

pub record MicroPaymentProvider : Type 0 where
  pub pay_micro : PaymentBinding → Result SettlementResult
  pub verify_micro : PaymentBinding → Text → Result (Unit {0})

pub record SettlementCoordinator : Type 0 where
  pub lightning : LightningSettlementProvider
  pub micro : MicroPaymentProvider
  pub threshold_sats : ℕ

unfoldable pub new_coordinator :
    LightningSettlementProvider → MicroPaymentProvider → ℕ → Result SettlementCoordinator
new_coordinator l m threshold_sats =
    if threshold_sats == 0
    then err invalid_binding
    else ok (record { lightning = l; micro = m; threshold_sats = threshold_sats })

unfoldable pub rail_for_amount : SettlementCoordinator → ℕ → SettlementRail
rail_for_amount c amount_sats = if leb c.threshold_sats amount_sats then lightning else ecash

unfoldable pub ensure_binding : PaymentBinding → Result (Unit {0})
ensure_binding binding = ensure (not (binding.amount_sats == 0)) invalid_binding

unfoldable pub ensure_storage_contract_binding : PaymentBinding → Result (Unit {0})
unfolding ensure_binding is_storage_contract
ensure_storage_contract_binding binding = do
  _ ← ensure_binding binding
  ensure (is_storage_contract binding.purpose) invalid_binding

unfoldable pub create_invoice : SettlementCoordinator → PaymentBinding → Result SettlementResult
create_invoice c binding = do
  _ ← ensure_storage_contract_binding binding
  elim (rail_for_amount c binding.amount_sats) [
    | lightning ↦ c.lightning.create_contract_invoice binding
    | ecash ↦ c.micro.pay_micro binding
  ]

unfoldable pub receipt_of : Option Text → Result Text
receipt_of none = err provider
receipt_of (some receipt) = ok receipt

unfoldable pub settle_contract :
    SettlementCoordinator → PaymentBinding → SettlementCredentials → Result (Unit {0})
settle_contract c binding credentials = do
  _ ← ensure_storage_contract_binding binding
  _ ← ensure credentials.bao_gate_satisfied provider
  elim (rail_for_amount c binding.amount_sats) [
    | lightning ↦ c.lightning.settle_contract binding credentials.invoice_hash
    | ecash ↦ (receipt_of credentials.ecash_receipt >>= c.micro.verify_micro binding)
  ]

unfoldable pub pay_challenge_fee : SettlementCoordinator → PaymentBinding → Result SettlementResult
pay_challenge_fee c binding = do
  _ ← ensure_binding binding
  _ ← ensure (is_challenge_fee binding.purpose) invalid_binding
  c.micro.pay_micro binding
