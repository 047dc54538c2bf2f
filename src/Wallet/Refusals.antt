-- ===== src/Wallet/Refusals.antt =====
-- What the transaction builder refuses.
use lord.Prelude.{
  In, here, there, ℕ, ◌+◌, ◌<◌, ◌==◌, ltb, true, false, Option, none, some, List, [], ◌∷◌, ◌≡◌, ◌≢◌,
  refl, arith, Bool-cases, reverse, if◌then◌else◌, ◌⊎◌, inl, inr,
}
use mathlib.Core.List.{reverse_aux}
use lord.Wallet.{
  SatPoint, TxOut, Rules, Target, TransactionBuilder, ok, err, >>=-eq-ok, contains,
  duplicate_address,
}
use lord.Wallet.Passes.{additional_inscription, no_additional, change_dust, select_outgoing}
use lord.Wallet.Build.{new, build_transaction, check_change, check_recipient}

In-reverse_aux {ℓ} :
    {A : Type ℓ} {a : A} (xs acc : List A) → In a xs ⊎ In a acc → In a (reverse_aux xs acc)
In-reverse_aux [] acc (inl m) = elim m [ ]
In-reverse_aux [] acc (inr m) = m
In-reverse_aux (x ∷ xs) acc (inl (here _)) = In-reverse_aux xs (x ∷ acc) (inr (here acc))
In-reverse_aux (x ∷ xs) acc (inl (there _ _ m)) = In-reverse_aux xs (x ∷ acc) (inl m)
In-reverse_aux (x ∷ xs) acc (inr m) = In-reverse_aux xs (x ∷ acc) (inr (there x acc m))

-- The inscription is on the outgoing output, at a higher offset than the outgoing sat or at one that is
-- lower by less than `dust_limit`.
abbrev pub Additional : ℕ → SatPoint → SatPoint → Type 0
Additional dust_limit outgoing inscribed =
    (outgoing.outpoint ≡ inscribed.outpoint)
    × (outgoing.offset ≢ inscribed.offset)
    × (outgoing.offset < inscribed.offset + dust_limit)

additional_inscription-none :
    (dust_limit : ℕ) (outgoing : SatPoint) (inscriptions : List (SatPoint × List ℕ))
    (inscribed : SatPoint) (ids : List ℕ)
    → additional_inscription dust_limit outgoing inscriptions ≡ none
    → In (inscribed, ids) inscriptions
    → ¬ Additional dust_limit outgoing inscribed
unfolding additional_inscription
additional_inscription-none dust_limit outgoing [] inscribed ids h m additional = elim m [ ]
additional_inscription-none dust_limit outgoing (_ ∷ rest) inscribed ids h (here _) additional =
    ground arith
additional_inscription-none dust_limit outgoing ((other, o) ∷ rest) inscribed ids h (there _ _ m)
      additional =
    ground (arith, additional_inscription-none dust_limit outgoing rest inscribed ids)

no_additional-none :
    (outgoing : SatPoint) (found : Option (SatPoint × List ℕ)) {u : Unit {0}}
    → no_additional outgoing found ≡ ok u
    → found ≡ none
unfolding no_additional
no_additional-none outgoing none e = refl
no_additional-none outgoing (some (s, i)) e = absurd cc

module _ (rules : Rules) (b b' : TransactionBuilder) (dust_limit : ℕ) where
  -- A selected outgoing sat carries no other inscription along: where the selection succeeds, each
  -- inscription of the wallet on the outgoing output is at the outgoing sat itself, or at an offset that
  -- is lower by the dust limit of the change address at least. None is at a higher offset, and none at
  -- a lower one that is nearer.
  pub select_outgoing_clear :
      select_outgoing rules b ≡ ok b'
      → change_dust rules b ≡ ok dust_limit
      → (inscribed : SatPoint) (ids : List ℕ) → In (inscribed, ids) b.inscriptions
      → ¬ Additional dust_limit b.outgoing inscribed
  unfolding select_outgoing
  select_outgoing_clear h hd inscribed ids m =
      let (_, clear, _) =
        >>=-eq-ok
          (no_additional b.outgoing
            (additional_inscription dust_limit b.outgoing (reverse b.inscriptions)))
          _ (rw hd at h) in
      additional_inscription-none dust_limit b.outgoing (reverse b.inscriptions) inscribed ids
        (no_additional-none b.outgoing _ clear) (In-reverse_aux b.inscriptions [] (inl m))

module _ (rules : Rules) (outgoing : SatPoint) (inscriptions : List (SatPoint × List ℕ))
    (amounts : List (ℕ × TxOut)) (locked_utxos runic_utxos : List ℕ)
    (recipient change_0 change_1 : ℕ) (target : Target) where
  abbrev builder : TransactionBuilder
  builder =
      new outgoing inscriptions amounts locked_utxos runic_utxos recipient change_0 change_1 target

  -- The change addresses and the address of the recipient, where its script has one and is not a script
  -- of data, have to differ: where two of the three are the same, the error names that address.
  pub build_transaction-duplicate_address :
      (address : ℕ)
      → rules.is_op_return recipient ≡ false
      → rules.from_script recipient ≡ some address
      → (change_0 ≡ change_1) ⊎ (address ≡ change_0) ⊎ (address ≡ change_1)
      → build_transaction rules builder
        ≡ err (duplicate_address (if change_0 == change_1 then change_0 else address))
  unfolding build_transaction new check_change check_recipient contains
  build_transaction-duplicate_address address no_data is_address same =
      elim (Bool-cases (change_0 == change_1)) [
        | inl e ↦ rw e refl
        | inr e ↦ elim (Bool-cases (ltb change_0 change_1)) [
          | inl f ↦ rw (e, f, no_data, is_address, found change_0 change_1 same e) refl
          | inr f ↦ rw (e, f, no_data, is_address, found' change_0 change_1 same e) refl
        ]
      ]
    where
      found :
          (c d : ℕ)
          → (c ≡ d) ⊎ (address ≡ c) ⊎ (address ≡ d)
          → (c == d) ≡ false
          → contains (c ∷ d ∷ []) address ≡ true
      found c d h e = ground arith

      found' :
          (c d : ℕ)
          → (c ≡ d) ⊎ (address ≡ c) ⊎ (address ≡ d)
          → (c == d) ≡ false
          → contains (d ∷ c ∷ []) address ≡ true
      found' c d h e = ground arith
