-- ===== src/Wallet.antt =====
-- src/wallet/transaction_builder.rs: the transaction that sends one sat of the wallet. An outpoint, a
-- script and an address are numbers, of which outpoints have the order of the source's. `BTreeMap` and
-- `BTreeSet` are lists in the order of their keys. Sizes, fees and the rules for scripts are `Rules`: they
-- come from the crate `bitcoin` and from floating point. A sum of amounts of outputs of the chain stays
-- far below 2^64 and is exact here; a subtraction below zero, a failed assert and a missing key panic.
pub mod Endings
pub mod Serves
pub mod Cardinal
pub mod Passes
pub mod Build
pub mod Best
pub mod Ends
pub mod Invariant
pub mod Align
pub mod Rounds
pub mod Strip
pub mod Safe
pub mod Refusals
use lord.Prelude.{
  ℕ, zero, suc, ◌+◌, ◌*◌, ◌==◌, Bool, true, false, ◌||◌, Option, none, some, List, [], ◌∷◌,
  if◌then◌else◌, ◌≡◌, ◌≢◌, ◌≤◌, ◌<◌, refl, arith, Bool-cases, ==_iff, length, ◌⊎◌, inl, inr,
}

pub record SatPoint : Type 0 where
  pub outpoint : ℕ
  pub offset : ℕ

pub record TxOut : Type 0 where
  pub script_pubkey : ℕ
  pub value : ℕ

pub record Transaction : Type 0 where
  pub input : List ℕ
  pub output : List TxOut

-- `fee` is `FeeRate::fee`, and `vsize` the size by the number of inputs and the scripts of the outputs:
-- each input is an outpoint with one Schnorr signature, and an amount takes eight bytes whatever it is.
pub record Rules : Type 0 where
  pub vsize : ℕ → List ℕ → ℕ
  pub fee : ℕ → ℕ
  pub minimal_non_dust : ℕ → ℕ
  pub script_pubkey : ℕ → ℕ
  pub from_script : ℕ → Option ℕ
  pub is_op_return : ℕ → Bool

pub data Error : Type 0 where
  duplicate_address : ℕ → Error
  dust : ℕ → ℕ → Error
  invalid_address not_enough_cardinal_utxos value_overflow : Error
  not_in_wallet : SatPoint → Error
  out_of_range : SatPoint → ℕ → Error
  utxo_contains_additional_inscriptions : SatPoint → SatPoint → List ℕ → Error

pub data Target : Type 0 where
  value_of : ℕ → Target
  postage : Target
  exact_postage : ℕ → Target

pub record TransactionBuilder : Type 0 where
  pub amounts : List (ℕ × TxOut)
  pub change_addresses : List ℕ
  pub inputs : List ℕ
  pub inscriptions : List (SatPoint × List ℕ)
  pub locked_utxos : List ℕ
  pub outgoing : SatPoint
  pub outputs : List TxOut
  pub recipient : ℕ
  pub runic_utxos : List ℕ
  pub target : Target
  pub unused_change_addresses : List ℕ
  pub utxos : List ℕ

-- A result, an error value, a panic, or a loop whose fuel ran out.
pub data Outcome {ℓ} (A : Type ℓ) : Type ℓ where
  ok : A → Outcome A
  err : Error → Outcome A
  panic diverged : Outcome A

infixl 5 ◌>>=◌ ◌>>◌
abbrev pub ◌>>=◌ {ℓ κ} : {A : Type ℓ} {B : Type κ} → Outcome A → (A → Outcome B) → Outcome B
panic >>= next = panic
diverged >>= next = diverged
err e >>= next = err e
ok found >>= next = next found

abbrev pub ◌>>◌ {ℓ} : {B : Type ℓ} → Outcome (Unit {0}) → Outcome B → Outcome B
step >> rest = step >>= λ _. rest

-- `assert!`
abbrev pub check : Bool → Outcome (Unit {0})
check true = ok tt
check false = panic

-- `if b { return Err(e) }`
abbrev pub refuse : Bool → Error → Outcome (Unit {0})
refuse true e = err e
refuse false e = ok tt

-- `unwrap`
abbrev pub unwrap {ℓ} : {A : Type ℓ} → Option A → Outcome A
unwrap none = panic
unwrap (some a) = ok a

-- `ok_or`
abbrev pub ok_or {ℓ} : {A : Type ℓ} → Option A → Error → Outcome A
ok_or none e = err e
ok_or (some a) e = ok a

unfoldable pub get : List (ℕ × TxOut) → ℕ → Option TxOut
get [] outpoint = none
get ((key, tx_out) ∷ rest) outpoint = if key == outpoint then some tx_out else get rest outpoint

-- `self.amounts[outpoint].value`
unfoldable pub amount_of : List (ℕ × TxOut) → ℕ → Outcome ℕ
unfolding get
amount_of amounts outpoint = do tx_out ← unwrap (get amounts outpoint); ok tx_out.value

unfoldable pub contains : List ℕ → ℕ → Bool
contains [] a = false
contains (x ∷ xs) a = x == a || contains xs a

unfoldable pub remove : ℕ → List ℕ → List ℕ
remove a [] = []
remove a (x ∷ xs) = if x == a then remove a xs else x ∷ remove a xs

-- `last` of a vector, and the vector after `pop`
unfoldable pub last {ℓ} : {A : Type ℓ} → List A → Option A
last [] = none
last (x ∷ []) = some x
last (x ∷ y ∷ ys) = last (y ∷ ys)

unfoldable pub popped {ℓ} : {A : Type ℓ} → List A → List A
popped [] = []
popped (x ∷ []) = []
popped (x ∷ y ∷ ys) = x ∷ popped (y ∷ ys)

unfoldable pub total : List TxOut → ℕ
total [] = 0
total (o ∷ os) = o.value + total os

unfoldable pub scripts : List TxOut → List ℕ
scripts [] = []
scripts (o ∷ os) = o.script_pubkey ∷ scripts os

abbrev pub max_postage : ℕ
max_postage = 2 * 10000

abbrev pub target_postage : ℕ
target_postage = 10000

abbrev pub additional_input_vbytes : ℕ
additional_input_vbytes = 57

abbrev pub additional_output_vbytes : ℕ
additional_output_vbytes = 43

-- Inversion of a bind that is `ok`.
module _ {ℓ κ} {A : Type ℓ} {B : Type κ} where
  pub >>=-eq-ok :
      (step : Outcome A) (next : A → Outcome B) {result : B}
      → (step >>= next) ≡ ok result
      → (found : A) × (step ≡ ok found) × (next found ≡ ok result)
  >>=-eq-ok diverged next h = absurd cc
  >>=-eq-ok panic next h = absurd cc
  >>=-eq-ok (err e) next h = absurd cc
  >>=-eq-ok (ok found) next h = (found, refl, h)

pub contains-cons :
    (x a : ℕ) (xs : List ℕ) → contains (x ∷ xs) a ≡ true → (x ≡ a) ⊎ (contains xs a ≡ true)
unfolding contains
contains-cons x a xs h = elim (Bool-cases (x == a)) [
  | inl e ↦ inl ((==_iff x a).0 e)
  | inr e ↦ inr (rw e at h)
]

pub contains_head : (a : ℕ) (xs : List ℕ) → contains (a ∷ xs) a ≡ true
unfolding contains
contains_head a xs = ground arith

pub contains_tail : (x a : ℕ) (xs : List ℕ) → contains xs a ≡ true → contains (x ∷ xs) a ≡ true
unfolding contains
contains_tail x a xs h = ground arith

pub length-remove : (a : ℕ) (xs : List ℕ) → length (remove a xs) ≤ length xs
unfolding remove
length-remove a [] = omega arith
length-remove a (x ∷ xs) = ground (arith, length-remove a xs)

pub length-remove_lt :
    (a : ℕ) (xs : List ℕ) → contains xs a ≡ true → length (remove a xs) < length xs
unfolding remove contains
length-remove_lt a [] h = absurd cc
length-remove_lt a (x ∷ xs) h = ground (arith, length-remove a xs, length-remove_lt a xs)

-- Inversion of a bind that is an error.
module _ {ℓ κ} {A : Type ℓ} {B : Type κ} where
  pub >>=-eq-err :
      (step : Outcome A) (next : A → Outcome B) {e : Error}
      → (step >>= next) ≡ err e
      → (step ≡ err e) ⊎ ((found : A) × (step ≡ ok found) × (next found ≡ err e))
  >>=-eq-err diverged next h = absurd cc
  >>=-eq-err panic next h = absurd cc
  >>=-eq-err (err e) next h = inl cc
  >>=-eq-err (ok found) next h = inr (found, refl, h)

pub amount_of-ne-err :
    (amounts : List (ℕ × TxOut)) (outpoint : ℕ) (e : Error) → amount_of amounts outpoint ≢ err e
unfolding amount_of
amount_of-ne-err amounts outpoint e h = ground arith

pub unwrap-eq-ok {ℓ} : {A : Type ℓ} (o : Option A) {a : A} → unwrap o ≡ ok a → o ≡ some a
unwrap-eq-ok none h = absurd cc
unwrap-eq-ok (some x) h = cc

pub ok_or-eq-ok {ℓ} :
    {A : Type ℓ} (o : Option A) (e : Error) {a : A} → ok_or o e ≡ ok a → o ≡ some a
ok_or-eq-ok none e h = absurd cc
ok_or-eq-ok (some x) e h = cc

pub ok-injective {ℓ} : {A : Type ℓ} {a b : A} → ok a ≡ ok b → a ≡ b
ok-injective h = cc

pub check-eq-ok : (c : Bool) {u : Unit {0}} → check c ≡ ok u → c ≡ true
check-eq-ok true h = refl
check-eq-ok false h = absurd cc
