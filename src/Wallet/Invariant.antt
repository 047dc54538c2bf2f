-- ===== src/Wallet/Invariant.antt =====
-- The invariant of the transaction under construction, and what it says of the lists in the builder.
use lord.Prelude.{
  ℕ, ◌+◌, ◌==◌, true, false, some, List, [], ◌∷◌, ◌++◌, ◌≡◌, ◌≢◌, refl, ap, arith, Bool-cases,
  ==_iff, get_elem?, ◌⊎◌, inl, inr,
}
use mathlib.Core.Option.{some-injective}
use lord.Wallet.{
  SatPoint, TxOut, TransactionBuilder, ok, amount_of, contains, remove, last, total, >>=-eq-ok,
}
use lord.Wallet.Cardinal.{is_cardinal}
use lord.Wallet.Passes.{sat_offset_in, set_first, set_last}
use lord.Wallet.Build.{total_in}

-- The output of the recipient alone, or behind one output that ends where the outgoing sat starts.
abbrev pub IsShaped : ℕ → ℕ → List TxOut → Type 0
IsShaped recipient offset [] = ⊥
IsShaped recipient offset (r ∷ []) = (offset ≡ 0) × (r.script_pubkey ≡ recipient)
IsShaped recipient offset (p ∷ r ∷ []) = (p.value ≡ offset) × (r.script_pubkey ≡ recipient)
IsShaped recipient offset (p ∷ q ∷ r ∷ rest) = ⊥

-- The input is the outgoing one, or a cardinal output of the wallet.
abbrev pub MaySpend : TransactionBuilder → ℕ → Type 0
MaySpend b i = (i ≡ (b.outgoing).outpoint) ⊎ (is_cardinal b i ≡ true)

-- `b` as the passes make it from the builder `start`.
pub record Holds (start b : TransactionBuilder) : Type 0 where
  pub same_amounts : b.amounts ≡ start.amounts
  pub same_outgoing : b.outgoing ≡ start.outgoing
  pub same_recipient : b.recipient ≡ start.recipient
  pub same_cardinal : (u : ℕ) → is_cardinal b u ≡ is_cardinal start u
  pub unused : contains b.utxos (start.outgoing).outpoint ≡ false
  pub spends : (i : ℕ) → contains b.inputs i ≡ true → MaySpend start i
  pub balanced : total_in start.amounts b.inputs ≡ ok (total b.outputs)
  pub offset : ℕ
  pub located : sat_offset_in start.amounts start.outgoing b.inputs 0 ≡ ok offset
  pub shaped : IsShaped start.recipient offset b.outputs

pub contains-remove :
    (u a : ℕ) (xs : List ℕ) → contains xs a ≡ false → contains (remove u xs) a ≡ false
unfolding contains remove
contains-remove u a [] h = refl
contains-remove u a (x ∷ xs) h = ground (arith, contains-remove u a xs)

pub contains-remove_self : (u : ℕ) (xs : List ℕ) → contains (remove u xs) u ≡ false
unfolding contains remove
contains-remove_self u [] = refl
contains-remove_self u (x ∷ xs) = ground (arith, contains-remove_self u xs)

pub contains-append :
    (xs : List ℕ) (u a : ℕ) → contains (xs ++ u ∷ []) a ≡ true → (contains xs a ≡ true) ⊎ (u ≡ a)
unfolding contains
contains-append [] u a h = inr (ground arith)
contains-append (x ∷ xs) u a h = elim (Bool-cases (x == a)) [
  | inl e ↦ inl (rw e refl)
  | inr e ↦ elim (contains-append xs u a (rw e at h)) [
    | inl old ↦ inl (rw e old)
    | inr new ↦ inr new
  ]
]

pub sat_offset_in-add :
    (amounts : List (ℕ × TxOut)) (outgoing : SatPoint) (inputs : List ℕ) (acc s more : ℕ)
    → sat_offset_in amounts outgoing inputs acc ≡ ok s
    → sat_offset_in amounts outgoing inputs (acc + more) ≡ ok (s + more)
unfolding sat_offset_in
sat_offset_in-add amounts outgoing [] acc s more h = absurd cc
sat_offset_in-add amounts outgoing (i ∷ is) acc s more h =
    elim (Bool-cases (i == outgoing.outpoint)) [
      | inl e ↦
          let same : acc + outgoing.offset ≡ s = cc (rw e at h) in
          let sum : acc + more + outgoing.offset ≡ s + more = omega arith in rw e (ap ok sum)
      | inr e ↦
          let (value, found, rest) = >>=-eq-ok (amount_of amounts i) _ (rw e at h) in
          let sum : acc + more + value ≡ acc + value + more = omega arith in
          rw (e, found, sum) (sat_offset_in-add amounts outgoing is (acc + value) s more rest)
    ]

pub sat_offset_in-front :
    (amounts : List (ℕ × TxOut)) (outgoing : SatPoint) (inputs : List ℕ) (u value s : ℕ)
    → u ≢ outgoing.outpoint
    → amount_of amounts u ≡ ok value
    → sat_offset_in amounts outgoing inputs 0 ≡ ok s
    → sat_offset_in amounts outgoing (u ∷ inputs) 0 ≡ ok (s + value)
unfolding sat_offset_in
sat_offset_in-front amounts outgoing inputs u value s ne found h =
    elim (Bool-cases (u == outgoing.outpoint)) [
      | inl e ↦ absurd (ne ((==_iff u outgoing.outpoint).0 e))
      | inr e ↦ rw (e, found) (sat_offset_in-add amounts outgoing inputs 0 s value h)
    ]

pub sat_offset_in-append :
    (amounts : List (ℕ × TxOut)) (outgoing : SatPoint) (inputs : List ℕ) (acc u s : ℕ)
    → sat_offset_in amounts outgoing inputs acc ≡ ok s
    → sat_offset_in amounts outgoing (inputs ++ u ∷ []) acc ≡ ok s
unfolding sat_offset_in
sat_offset_in-append amounts outgoing [] acc u s h = absurd cc
sat_offset_in-append amounts outgoing (i ∷ is) acc u s h =
    elim (Bool-cases (i == outgoing.outpoint)) [
      | inl e ↦ rw e (rw e at h)
      | inr e ↦
          let (value, found, rest) = >>=-eq-ok (amount_of amounts i) _ (rw e at h) in
          rw (e, found) (sat_offset_in-append amounts outgoing is (acc + value) u s rest)
    ]

pub total_in-front :
    (amounts : List (ℕ × TxOut)) (inputs : List ℕ) (u value t : ℕ)
    → amount_of amounts u ≡ ok value
    → total_in amounts inputs ≡ ok t
    → total_in amounts (u ∷ inputs) ≡ ok (value + t)
unfolding total_in
total_in-front amounts inputs u value t found h = rw (found, h)

pub total_in-append :
    (amounts : List (ℕ × TxOut)) (inputs : List ℕ) (u value t : ℕ)
    → amount_of amounts u ≡ ok value
    → total_in amounts inputs ≡ ok t
    → total_in amounts (inputs ++ u ∷ []) ≡ ok (t + value)
unfolding total_in
total_in-append amounts [] u value t found h =
    let e : 0 ≡ t = cc in let sum : value + 0 ≡ t + value = omega arith in rw found (ap ok sum)
total_in-append amounts (i ∷ is) u value t found h =
    let (v, first, h1) = >>=-eq-ok (amount_of amounts i) _ h in
    let (r, rest, h2) = >>=-eq-ok (total_in amounts is) _ h1 in
    let e : v + r ≡ t = cc in
    let sum : v + (r + value) ≡ t + value = omega arith in
    rw (first, total_in-append amounts is u value r found rest) (ap ok sum)

-- More value for the first output, where it is not the recipient's.
pub set_first-IsShaped :
    (recipient offset value : ℕ) (outputs : List TxOut) (first : TxOut)
    → get_elem? outputs 0 ≡ some first
    → (first.script_pubkey == recipient) ≡ false
    → IsShaped recipient offset outputs
    → IsShaped recipient (offset + value) (set_first (first.value + value) outputs)
      × (total (set_first (first.value + value) outputs) ≡ value + total outputs)
unfolding set_first total
set_first-IsShaped recipient offset value [] first e ne h = absurd h
set_first-IsShaped recipient offset value (r ∷ []) first e ne h =
    let same : r ≡ first = some-injective _ _ e in ground arith
set_first-IsShaped recipient offset value (p ∷ r ∷ []) first e ne h =
    let same : p ≡ first = some-injective _ _ e in ground arith
set_first-IsShaped recipient offset value (p ∷ q ∷ r ∷ rest) first e ne h = absurd h

-- More value for the last output.
pub set_last-IsShaped :
    (recipient offset value : ℕ) (outputs : List TxOut) (tx_out : TxOut)
    → last outputs ≡ some tx_out
    → IsShaped recipient offset outputs
    → IsShaped recipient offset (set_last (tx_out.value + value) outputs)
      × (total (set_last (tx_out.value + value) outputs) ≡ total outputs + value)
unfolding set_last total last
set_last-IsShaped recipient offset value [] tx_out e h = absurd h
set_last-IsShaped recipient offset value (r ∷ []) tx_out e h =
    let same : r ≡ tx_out = some-injective _ _ e in ground arith
set_last-IsShaped recipient offset value (p ∷ r ∷ []) tx_out e h =
    let same : r ≡ tx_out = some-injective _ _ e in ground arith
set_last-IsShaped recipient offset value (p ∷ q ∷ r ∷ rest) tx_out e h = absurd h

-- The first output keeps its script.
pub set_first-script_pubkey :
    (recipient : ℕ) (outputs : List TxOut) (value : ℕ)
    → ((o : TxOut) → get_elem? outputs 0 ≡ some o → (o.script_pubkey == recipient) ≡ false)
    → (o : TxOut) → get_elem? (set_first value outputs) 0 ≡ some o
    → (o.script_pubkey == recipient) ≡ false
unfolding set_first
set_first-script_pubkey recipient [] value h o e = absurd cc
set_first-script_pubkey recipient (p ∷ ps) value h o e =
    let same : p.script_pubkey ≡ o.script_pubkey =
      ap (λ (x : TxOut). x.script_pubkey) (some-injective _ _ e) in
    rw (← same) (h p refl)
