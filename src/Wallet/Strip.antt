-- ===== src/Wallet/Strip.antt =====
-- `strip_value` keeps the sum of the outputs and the place of the outgoing sat, and so the recipient's
-- output; and what a new value of the last output does to them.
use lord.Prelude.{
  ℕ, ◌+◌, ◌-◌, ◌≤◌, ltb, leb, some, List, [], ◌∷◌, ◌++◌, ◌≡◌, refl, sym, ap, ◌∙◌, arith, Bool-cases,
  if◌then◌else◌, inl, inr,
}
use mathlib.Core.Option.{some-injective}
use lord.Wallet.{
  TxOut, Rules, TransactionBuilder, ok, check, unwrap, last, scripts, total, >>=-eq-ok,
  unwrap-eq-ok, ok-injective,
}
use lord.Wallet.Passes.{
  checked_sub, set_last, sat_offset_in, calculate_sat_offset, change_dust, estimate_vbytes,
  postage_limits, move_to_change, has_recipient, strip_excess, strip_value,
}
use lord.Wallet.Invariant.{Holds, IsShaped}
use lord.Wallet.Align.{checked_sub-some}

-- An output of the recipient starts where `offset` sats of the outputs end.
abbrev pub Lands : ℕ → ℕ → List TxOut → Type 0
Lands recipient offset outputs =
    (before : List TxOut) × (r : TxOut) × (after : List TxOut) × (outputs ≡ before ++ r ∷ after)
    × (total before ≡ offset)
    × (r.script_pubkey ≡ recipient)

IsShaped-Lands :
    (recipient offset : ℕ) (outputs : List TxOut)
    → IsShaped recipient offset outputs
    → Lands recipient offset outputs
unfolding total
IsShaped-Lands recipient offset [] h = absurd h
IsShaped-Lands recipient offset (r ∷ []) h = ([], r, [], refl, sym h.0, h.1)
IsShaped-Lands recipient offset (p ∷ r ∷ []) h = (p ∷ [], r, [], refl, omega arith, h.1)
IsShaped-Lands recipient offset (p ∷ q ∷ r ∷ rest) h = absurd h

-- A part of the last output moved to a new one behind it.
split_last :
    (recipient offset target script_pubkey : ℕ) (outputs : List TxOut)
    → IsShaped recipient offset outputs
    → target ≤ total outputs - offset
    → let outputs' =
        set_last target outputs
        ++ record { script_pubkey = script_pubkey; value = total outputs - offset - target } ∷ [] in
      (total outputs' ≡ total outputs) × Lands recipient offset outputs'
unfolding total set_last
split_last recipient offset target script_pubkey [] h within = absurd h
split_last recipient offset target script_pubkey (r ∷ []) h within =
    (omega arith, ([], record r { value = target }, _, refl, sym h.0, h.1))
split_last recipient offset target script_pubkey (p ∷ r ∷ []) h within =
    (omega arith, (p ∷ [], record r { value = target }, _, refl, omega arith, h.1))
split_last recipient offset target script_pubkey (p ∷ q ∷ r ∷ rest) h within = absurd h

set_last_behind :
    (value : ℕ) (before : List TxOut) (r : TxOut) (after : List TxOut)
    → (r' : TxOut) × (after' : List TxOut) × (set_last value (before ++ r ∷ after)
        ≡ before ++ r' ∷ after')
      × (r'.script_pubkey ≡ r.script_pubkey)
unfolding set_last
set_last_behind value [] r [] = (record r { value = value }, [], refl, refl)
set_last_behind value [] r (a ∷ after) = (r, set_last value (a ∷ after), refl, refl)
set_last_behind value (b ∷ []) r after =
    let (r', after', e, s) = set_last_behind value [] r after in
    (r', after', ap (λ os. b ∷ os) e, s)
set_last_behind value (b ∷ c ∷ before) r after =
    let (r', after', e, s) = set_last_behind value (c ∷ before) r after in
    (r', after', ap (λ os. b ∷ os) e, s)

pub set_last-Lands :
    (recipient offset value : ℕ) (outputs : List TxOut)
    → Lands recipient offset outputs
    → Lands recipient offset (set_last value outputs)
set_last-Lands recipient offset value outputs (before, r, after, e, start, script) =
    let (r', after', e', script') = set_last_behind value before r after in
    (before, r', after', ap (set_last value) e ∙ e', start, script' ∙ script)

pub set_last-total :
    (outputs : List TxOut) (tx_out : TxOut) (fee : ℕ)
    → last outputs ≡ some tx_out
    → fee ≤ tx_out.value
    → total outputs ≡ total (set_last (tx_out.value - fee) outputs) + fee
unfolding set_last total last
set_last-total [] tx_out fee e h = absurd cc
set_last-total (o ∷ []) tx_out fee e h =
    let same : o ≡ tx_out = some-injective _ _ e in ground arith
set_last-total (o ∷ p ∷ ps) tx_out fee e h = omega (arith, set_last-total (p ∷ ps) tx_out fee e h)

pub set_last-scripts :
    (outputs : List TxOut) (value : ℕ) → scripts (set_last value outputs) ≡ scripts outputs
unfolding set_last scripts
set_last-scripts [] value = refl
set_last-scripts (o ∷ []) value = refl
set_last-scripts (o ∷ p ∷ ps) value =
    ap (λ s. o.script_pubkey ∷ s) (set_last-scripts (p ∷ ps) value)

module _ (rules : Rules) (start : TransactionBuilder) where
  -- The builder behind `strip_value`
  pub record Stripped (b b' : TransactionBuilder) : Type 0 where
    pub outputs : List TxOut
    pub unused : List ℕ
    pub is : b' ≡ record b { outputs = outputs; unused_change_addresses = unused }
    pub same_total : total outputs ≡ total b.outputs
    pub offset : ℕ
    pub located : sat_offset_in start.amounts start.outgoing b.inputs 0 ≡ ok offset
    pub lands : Lands start.recipient offset outputs

  unstripped : (b : TransactionBuilder) → Holds start b → Stripped b b
  unstripped b holds = record {
    outputs = b.outputs;
    unused = b.unused_change_addresses;
    is = refl;
    same_total = refl;
    offset = holds.offset;
    located = holds.located;
    lands = IsShaped-Lands start.recipient holds.offset b.outputs holds.shaped;
  }

  move_to_change-Stripped :
      (b b' : TransactionBuilder) (target : ℕ) (holds : Holds start b)
      → target ≤ total b.outputs - holds.offset
      → move_to_change rules (total b.outputs - holds.offset) target b ≡ ok b'
      → Stripped b b'
  unfolding move_to_change
  move_to_change-Stripped b b' target holds within h =
      let (address, _, e) = >>=-eq-ok (unwrap (last b.unused_change_addresses)) _ h in
      let split =
        split_last start.recipient holds.offset target (rules.script_pubkey address) b.outputs
          holds.shaped within in
      record {
        outputs = _;
        unused = _;
        is = sym (ok-injective e);
        same_total = split.0;
        offset = holds.offset;
        located = holds.located;
        lands = split.1;
      }

  strip_excess-Stripped :
      (b b' : TransactionBuilder) (value excess : ℕ) (holds : Holds start b)
      → value ≡ total b.outputs - holds.offset
      → strip_excess rules value excess b ≡ ok b'
      → Stripped b b'
  unfolding strip_excess
  strip_excess-Stripped b b' value excess holds same h =
      elim (Bool-cases (ltb (postage_limits b.target).0 excess)) [
        | inl over ↦
            let (rest, left, h1) =
              >>=-eq-ok (unwrap (checked_sub value (postage_limits b.target).1)) _ (rw over at h) in
            let (dust_limit, _, h2) = >>=-eq-ok (change_dust rules b) _ h1 in
            let facts =
              checked_sub-some value (postage_limits b.target).1 rest (unwrap-eq-ok _ left) in
            moved dust_limit rest facts.0 h2
        | inr within ↦ rw (← ok-injective (rw within at h)) (unstripped b holds)
      ]
    where
      moved :
          (dust_limit rest : ℕ)
          → (postage_limits b.target).1 ≤ value
          → (if ltb (dust_limit + rules.fee (estimate_vbytes rules b + 43)) rest
              then move_to_change rules value (postage_limits b.target).1 b
              else ok b)
            ≡ ok b'
          → Stripped b b'
      moved dust_limit rest enough e =
          elim (Bool-cases (ltb (dust_limit + rules.fee (estimate_vbytes rules b + 43)) rest)) [
            | inl worth ↦
                move_to_change-Stripped b b' (postage_limits b.target).1 holds (rw same at enough)
                  (rw same at (rw worth at e))
            | inr small ↦ rw (← ok-injective (rw small at e)) (unstripped b holds)
          ]

  -- The offset that the passes compute is the invariant's.
  pub located_offset :
      (b : TransactionBuilder) (holds : Holds start b) (sat_offset : ℕ)
      → calculate_sat_offset b ≡ ok sat_offset
      → holds.offset ≡ sat_offset
  unfolding calculate_sat_offset
  located_offset b holds sat_offset h =
      ok-injective (sym holds.located ∙ rw (holds.same_amounts, holds.same_outgoing) at h)

  pub strip_value-Stripped :
      (b b' : TransactionBuilder) → Holds start b → strip_value rules b ≡ ok b' → Stripped b b'
  unfolding strip_value
  strip_value-Stripped b b' holds h =
      let (sat_offset, at, h1) = >>=-eq-ok (calculate_sat_offset b) _ h in
      let (_, _, h2) = >>=-eq-ok (check (has_recipient b.recipient b.outputs)) _ h1 in
      let (value, left, h3) = >>=-eq-ok (unwrap (checked_sub (total b.outputs) sat_offset)) _ h2 in
      let facts = checked_sub-some (total b.outputs) sat_offset value (unwrap-eq-ok _ left) in
      let same = located_offset b holds sat_offset at in
      stripped value (facts.1 ∙ ap (λ (t : ℕ). total b.outputs - t) (sym same)) h3
    where
      stripped :
          (value : ℕ)
          → value ≡ total b.outputs - holds.offset
          → (if leb (rules.fee (estimate_vbytes rules b)) value
              then strip_excess rules value (value - rules.fee (estimate_vbytes rules b)) b
              else ok b)
            ≡ ok b'
          → Stripped b b'
      stripped value same e = elim (Bool-cases (leb (rules.fee (estimate_vbytes rules b)) value)) [
        | inl pays ↦
            strip_excess-Stripped b b' value (value - rules.fee (estimate_vbytes rules b)) holds
              same (rw pays at e)
        | inr short ↦ rw (← ok-injective (rw short at e)) (unstripped b holds)
      ]
