-- ===== src/Wallet/Serves.antt =====
-- When one output serves as well as another to pad a transaction, and what a round of the selection
-- does.
use lord.Prelude.{
  ℕ, ◌≤◌, ◌<◌, Bool, true, false, Option, some, ◌≡◌, ◌≢◌, arith, Bool-cases, if◌then◌else◌, ◌⊎◌,
  inl, inr,
}
use lord.Wallet.{
  TransactionBuilder, Error, ok, err, amount_of, >>=-eq-ok, >>=-eq-err, amount_of-ne-err,
}
use lord.Wallet.Cardinal.{is_cardinal, replaces, previous, visit}

-- `best` serves as well as `other`: the largest up to the target before the smallest above it where the
-- smaller are preferred, and the smallest from the target on before the largest below it otherwise.
abbrev pub Serves : Bool → ℕ → ℕ → ℕ → Type 0
Serves true target best other =
    (best ≤ target → other ≤ target → other ≤ best) × (target < best → best ≤ other)
Serves false target best other =
    (target ≤ best → target ≤ other → best ≤ other) × (best < target → other ≤ best)

pub Serves-refl : (prefer_under : Bool) (target a : ℕ) → Serves prefer_under target a a
Serves-refl true target a = (λ p q. omega arith, λ p. omega arith)
Serves-refl false target a = (λ p q. omega arith, λ p. omega arith)

pub Serves-trans :
    (prefer_under : Bool) (target a b c : ℕ)
    → Serves prefer_under target a b
    → Serves prefer_under target b c
    → Serves prefer_under target a c
Serves-trans true target a b c p q = (λ h k. ground arith, λ h. ground arith)
Serves-trans false target a b c p q = (λ h k. ground arith, λ h. ground arith)

unfoldable pub chosen : Bool → ℕ → ℕ → ℕ → ℕ
chosen prefer_under target best current =
    if replaces prefer_under target best current then current else best

pub chosen-Serves :
    (prefer_under : Bool) (target best current : ℕ)
    → Serves prefer_under target (chosen prefer_under target best current) best
      × Serves prefer_under target (chosen prefer_under target best current) current
unfolding chosen replaces
chosen-Serves true target best current =
    ((λ p q. ground arith, λ p. ground arith), (λ p q. ground arith, λ p. ground arith))
chosen-Serves false target best current =
    ((λ p q. ground arith, λ p. ground arith), (λ p q. ground arith, λ p. ground arith))

-- One round: the output is skipped, or the best match is chosen between it and the one before.
pub visit-ok :
    (b : TransactionBuilder) (target : ℕ) (prefer_under : Bool) (utxo : ℕ) (best : Option (ℕ × ℕ))
    (next : Option (ℕ × ℕ))
    → visit b target prefer_under utxo best ≡ ok next
    → ((is_cardinal b utxo ≡ false) × (next ≡ best))
      ⊎ ((current : ℕ) × (is_cardinal b utxo ≡ true)
          × (amount_of b.amounts utxo ≡ ok current)
          × (next
              ≡ some (
                  if replaces prefer_under target (previous best (utxo, current)).1 current
                  then (utxo, current)
                  else previous best (utxo, current))))
unfolding visit
visit-ok b target prefer_under utxo best next h = elim (Bool-cases (is_cardinal b utxo)) [
  | inl e ↦
      let found = >>=-eq-ok (amount_of b.amounts utxo) _ (rw e at h) in
      inr (found.0, e, found.1, cc found.2)
  | inr e ↦ inl (e, cc (rw e at h))
]

pub visit-ne-err :
    (b : TransactionBuilder) (target : ℕ) (prefer_under : Bool) (utxo : ℕ) (best : Option (ℕ × ℕ))
    (e : Error)
    → visit b target prefer_under utxo best ≢ err e
unfolding visit
visit-ne-err b target prefer_under utxo best e h = elim (Bool-cases (is_cardinal b utxo)) [
  | inl c ↦ elim (>>=-eq-err (amount_of b.amounts utxo) _ (rw c at h)) [
    | inl failed ↦ amount_of-ne-err b.amounts utxo e failed
    | inr (current, amount, chosen) ↦ absurd cc
  ]
  | inr c ↦ let h' = rw c at h in absurd cc
]
