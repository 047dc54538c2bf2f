-- ===== src/Wallet/Align.antt =====
-- The invariant of the transaction under construction holds behind `align_outgoing`.
use lord.Prelude.{
  ℕ, ◌+◌, ◌-◌, ◌≤◌, ◌==◌, leb, some, [], ◌∷◌, ◌++◌, ◌≡◌, refl, sym, ap, ◌∙◌, arith, Bool-cases,
  ==_iff, length, get_elem?, reverse, if◌then◌else◌, inl, inr,
}
use lord.Wallet.{
  TxOut, Rules, TransactionBuilder, ok, check, refuse, unwrap, ok_or, get, amount_of, contains,
  remove, last, popped, total, >>=-eq-ok, contains-cons, not_in_wallet, ok_or-eq-ok, unwrap-eq-ok,
  ok-injective,
}
use lord.Wallet.Cardinal.{is_cardinal}
use lord.Wallet.Passes.{
  checked_sub, set_last, sat_offset_in, calculate_sat_offset, change_dust, additional_inscription,
  no_additional, select_outgoing, pad_before, align_outgoing,
}
use lord.Wallet.Build.{total_in}
use lord.Wallet.Invariant.{Holds, contains-remove_self}

pub checked_sub-some : (a b c : ℕ) → checked_sub a b ≡ some c → (b ≤ a) × (c ≡ a - b)
unfolding checked_sub
checked_sub-some a b c h = ground arith

-- The builder behind `select_outgoing`, one behind `new` before it.
first_state : TransactionBuilder → ℕ → TransactionBuilder
first_state start amount = record start {
  utxos = remove (start.outgoing).outpoint start.utxos;
  inputs = (start.outgoing).outpoint ∷ [];
  outputs = record { script_pubkey = start.recipient; value = amount } ∷ [];
}

module _ (rules : Rules) (start : TransactionBuilder) (no_inputs : start.inputs ≡ [])
    (no_outputs : start.outputs ≡ []) where
  select_outgoing-eq :
      (b : TransactionBuilder)
      → select_outgoing rules start ≡ ok b
      → (amount : ℕ) × (amount_of start.amounts (start.outgoing).outpoint ≡ ok amount)
        × (b ≡ first_state start amount)
  unfolding select_outgoing first_state amount_of
  select_outgoing-eq b h =
      let (dust, _, h1) = >>=-eq-ok (change_dust rules start) _ h in
      let (_, _, h2) =
        >>=-eq-ok
          (no_additional start.outgoing
            (additional_inscription dust start.outgoing (reverse start.inscriptions)))
          _ h1 in
      let (tx_out, found, h3) =
        >>=-eq-ok
          (ok_or (get start.amounts (start.outgoing).outpoint) (not_in_wallet start.outgoing)) _
          h2 in
      let (_, _, h4) = >>=-eq-ok (refuse (leb tx_out.value (start.outgoing).offset) _) _ h3 in
      (
        tx_out.value,
        rw (ok_or-eq-ok (get start.amounts (start.outgoing).outpoint) _ found),
        sym (ok-injective h4) ∙ emptied tx_out,
      )
    where
      emptied :
          (tx_out : TxOut)
          → record start {
            utxos = remove (start.outgoing).outpoint start.utxos;
            inputs = start.inputs ++ (start.outgoing).outpoint ∷ [];
            outputs =
                start.outputs
                ++ record { script_pubkey = start.recipient; value = tx_out.value } ∷ [];
          }
            ≡ first_state start tx_out.value
      emptied tx_out = λ i. record start {
        utxos = remove (start.outgoing).outpoint start.utxos;
        inputs = no_inputs i ++ (start.outgoing).outpoint ∷ [];
        outputs =
            no_outputs i ++ record { script_pubkey = start.recipient; value = tx_out.value } ∷ [];
      }

  first_offset :
      (amount sat_offset : ℕ)
      → calculate_sat_offset (first_state start amount) ≡ ok sat_offset
      → (start.outgoing).offset ≡ sat_offset
  unfolding first_state calculate_sat_offset sat_offset_in
  first_offset amount sat_offset h = ground arith

  single-Holds :
      (amount : ℕ)
      → amount_of start.amounts (start.outgoing).outpoint ≡ ok amount
      → (start.outgoing).offset ≡ 0
      → Holds start (first_state start amount)
  unfolding first_state is_cardinal sat_offset_in total_in total contains
  single-Holds amount found zero_offset = record {
    same_amounts = refl;
    same_outgoing = refl;
    same_recipient = refl;
    same_cardinal = λ u. refl;
    unused = contains-remove_self (start.outgoing).outpoint start.utxos;
    spends = λ i m. elim (contains-cons (start.outgoing).outpoint i [] m) [
      | inl e ↦ inl (sym e)
      | inr e ↦ absurd cc
    ];
    balanced = rw found;
    offset = (start.outgoing).offset;
    located = ground arith;
    shaped = (zero_offset, refl);
  }

  padded_state : ℕ → ℕ → ℕ → TransactionBuilder
  padded_state amount sat_offset address = record (first_state start amount) {
    unused_change_addresses = popped start.unused_change_addresses;
    outputs =
        record { script_pubkey = rules.script_pubkey address; value = sat_offset }
        ∷ record { script_pubkey = start.recipient; value = amount - sat_offset }
        ∷ [];
  }

  double-Holds :
      (amount address : ℕ)
      → amount_of start.amounts (start.outgoing).outpoint ≡ ok amount
      → (start.outgoing).offset ≤ amount
      → Holds start (padded_state amount (start.outgoing).offset address)
  unfolding first_state padded_state is_cardinal sat_offset_in total_in total contains
  double-Holds amount address found within =
      let sum : amount + 0 ≡ (start.outgoing).offset + (amount - (start.outgoing).offset + 0) =
        omega arith in
      record {
        same_amounts = refl;
        same_outgoing = refl;
        same_recipient = refl;
        same_cardinal = λ u. refl;
        unused = contains-remove_self (start.outgoing).outpoint start.utxos;
        spends = λ i m. elim (contains-cons (start.outgoing).outpoint i [] m) [
          | inl e ↦ inl (sym e)
          | inr e ↦ absurd cc
        ];
        balanced = rw found (ap ok sum);
        offset = (start.outgoing).offset;
        located = ground arith;
        shaped = (refl, refl);
      }

  pad_before-eq :
      (amount sat_offset : ℕ) (b' : TransactionBuilder)
      → pad_before rules sat_offset (first_state start amount) ≡ ok b'
      → (address : ℕ) × (sat_offset ≤ amount) × (b' ≡ padded_state amount sat_offset address)
  unfolding pad_before first_state padded_state last set_last
  pad_before-eq amount sat_offset b' h =
      let (address, _, h1) = >>=-eq-ok (unwrap (last start.unused_change_addresses)) _ h in
      let (rest, left, h2) = >>=-eq-ok (unwrap (checked_sub amount sat_offset)) _ h1 in
      let facts = checked_sub-some amount sat_offset rest (unwrap-eq-ok _ left) in
      (address, facts.0, sym (ok-injective (rw facts.1 at h2)))

  aligned-Holds :
      (amount : ℕ) (b' : TransactionBuilder)
      → amount_of start.amounts (start.outgoing).outpoint ≡ ok amount
      → align_outgoing rules (first_state start amount) ≡ ok b'
      → Holds start b'
  unfolding align_outgoing
  aligned-Holds amount b' found h =
      let (_, _, h1) = >>=-eq-ok (check (length (first_state start amount).outputs == 1)) _ h in
      let (first, _, h2) =
        >>=-eq-ok (unwrap (get_elem? (first_state start amount).outputs 0)) _ h1 in
      let (_, _, h3) =
        >>=-eq-ok (check (first.script_pubkey == (first_state start amount).recipient)) _ h2 in
      let (sat_offset, at, h4) = >>=-eq-ok (calculate_sat_offset (first_state start amount)) _ h3 in
      placed sat_offset at h4
    where
      same :
          (sat_offset : ℕ)
          → calculate_sat_offset (first_state start amount) ≡ ok sat_offset
          → (start.outgoing).offset ≡ sat_offset
      same sat_offset at = first_offset amount sat_offset at

      placed :
          (sat_offset : ℕ)
          → calculate_sat_offset (first_state start amount) ≡ ok sat_offset
          → (if sat_offset == 0
              then ok (first_state start amount)
              else pad_before rules sat_offset (first_state start amount))
            ≡ ok b'
          → Holds start b'
      placed sat_offset at e = elim (Bool-cases (sat_offset == 0)) [
        | inl zero_offset ↦
            rw (← ok-injective (rw zero_offset at e))
              (single-Holds amount found (same sat_offset at ∙ (==_iff sat_offset 0).0 zero_offset))
        | inr other ↦
            let (address, within, f) = pad_before-eq amount sat_offset b' (rw other at e) in
            rw (f, ← same sat_offset at)
              (double-Holds amount address found (rw (← same sat_offset at) at within))
      ]

  pub align_outgoing-Holds :
      (b b' : TransactionBuilder)
      → select_outgoing rules start ≡ ok b
      → align_outgoing rules b ≡ ok b'
      → Holds start b'
  align_outgoing-Holds b b' hs ha =
      let (amount, found, e) = select_outgoing-eq b hs in aligned-Holds amount b' found (rw e at ha)
