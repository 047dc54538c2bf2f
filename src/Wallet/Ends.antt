-- ===== src/Wallet/Ends.antt =====
-- The loops of the transaction builder end: a round of either removes an unspent output of the wallet.
use lord.Prelude.{
  ℕ, zero, suc, ◌+◌, ◌-◌, ◌<◌, ◌==◌, ltb, true, false, Option, none, some, List, [], ◌∷◌, ◌≡◌, ◌≢◌,
  arith, length, get_elem?,
}
use lord.Wallet.{
  SatPoint, TxOut, Rules, TransactionBuilder, ok, diverged, unwrap, ok_or, >>=-eq-ok, value_of,
  value_overflow, not_enough_cardinal_utxos, last, postage, exact_postage, Target,
}
use lord.Wallet.Cardinal.{select_cardinal_utxo}
use lord.Wallet.Passes.{
  pad_round, pad_loop, pad_alignment_output, add_round, add_loop, add_value, sat_offset_in,
  checked_sub, checked_add, change_dust, calculate_sat_offset, no_additional, select_outgoing,
  align_outgoing, pad_before, strip_excess, strip_value, move_to_change, deduct_fee,
}
use lord.Wallet.Build.{
  build, build_transaction, total_in, check_change, check_recipient, target_dust, check_outputs,
  check_output, check_postage, check_fee,
}
use lord.Wallet.Endings.{
  Ends, ok-Ends, unwrap-Ends, >>=-Ends_ok, >>=-Ends, if-Ends, ends, amount_of-Ends,
  select_cardinal_utxo-Ends, select_cardinal_utxo_shrinks,
}

module _ (rules : Rules) where
  pad_round-Ends :
      (dust_limit : ℕ) (first : TxOut) (b : TransactionBuilder)
      → Ends (pad_round rules dust_limit first b)
  unfolding pad_round
  pad_round-Ends dust_limit first b = search (ends, select_cardinal_utxo-Ends)

  pad_round_shrinks :
      (dust_limit : ℕ) (first : TxOut) (b b' : TransactionBuilder)
      → pad_round rules dust_limit first b ≡ ok b'
      → length b'.utxos < length b.utxos
  unfolding pad_round
  pad_round_shrinks dust_limit first b b' h =
      let (found, selected, e) =
        >>=-eq-ok (select_cardinal_utxo (dust_limit - first.value) true b) _ h in
      let same : (found.1).utxos ≡ b'.utxos = cc in
      rw (← same) (select_cardinal_utxo_shrinks (dust_limit - first.value) true b found selected)

  pad_loop-Ends :
      (fuel dust_limit : ℕ) (b : TransactionBuilder)
      → length b.utxos < fuel
      → Ends (pad_loop rules fuel dust_limit b)
  unfolding pad_loop
  pad_loop-Ends zero dust_limit b h = elim h [ ]
  pad_loop-Ends (suc fuel) dust_limit b h = >>=-Ends (unwrap-Ends (get_elem? b.outputs 0)) (λ first.
      if-Ends (ltb first.value dust_limit)
        (>>=-Ends_ok (pad_round rules dust_limit first b) _ (pad_round-Ends dust_limit first b)
          (λ b' e.
            pad_loop-Ends fuel dust_limit b'
              (omega (arith, pad_round_shrinks dust_limit first b b' e))))
        (ok-Ends b))

  add_round-Ends : (deficit : ℕ) (b : TransactionBuilder) → Ends (add_round rules deficit b)
  unfolding add_round
  add_round-Ends deficit b = search (ends, select_cardinal_utxo-Ends)

  add_round_shrinks :
      (deficit : ℕ) (b : TransactionBuilder) (next : ℕ × TransactionBuilder)
      → add_round rules deficit b ≡ ok next
      → length (next.1).utxos < length b.utxos
  unfolding add_round
  add_round_shrinks deficit b next h =
      let (needed, _, h1) =
        >>=-eq-ok (ok_or (checked_add deficit (rules.fee 57)) value_overflow) _ h in
      let (found, selected, h2) = >>=-eq-ok (select_cardinal_utxo needed false b) _ h1 in
      let (benefit, _, h3) =
        >>=-eq-ok (ok_or (checked_sub found.0.1 (rules.fee 57)) not_enough_cardinal_utxos) _ h2 in
      let (tx_out, _, h4) = >>=-eq-ok (unwrap (last (found.1).outputs)) _ h3 in
      let same : (found.1).utxos ≡ (next.1).utxos = cc in
      rw (← same) (select_cardinal_utxo_shrinks needed false b found selected)

  add_loop-Ends :
      (fuel deficit : ℕ) (b : TransactionBuilder)
      → length b.utxos < fuel
      → Ends (add_loop rules fuel deficit b)
  unfolding add_loop
  add_loop-Ends zero deficit b h = elim h [ ]
  add_loop-Ends (suc fuel) deficit b h =
      if-Ends (ltb 0 deficit)
        (>>=-Ends_ok (add_round rules deficit b) _ (add_round-Ends deficit b) (λ next e.
          add_loop-Ends fuel next.0 next.1 (omega (arith, add_round_shrinks deficit b next e))))
        (ok-Ends b)

  change_dust-Ends : (b : TransactionBuilder) → Ends (change_dust rules b)
  unfolding change_dust
  change_dust-Ends b = search ends

  pad_alignment_output-Ends : (b : TransactionBuilder) → Ends (pad_alignment_output rules b)
  unfolding pad_alignment_output
  pad_alignment_output-Ends b =
      let padded =
        λ (dust_limit : ℕ). pad_loop-Ends (suc (length b.utxos)) dust_limit b (omega arith) in
      search (ends, change_dust-Ends, padded)

  add_value-Ends : (b : TransactionBuilder) → Ends (add_value rules b)
  unfolding add_value
  add_value-Ends b =
      let added = λ (deficit : ℕ). add_loop-Ends (suc (length b.utxos)) deficit b (omega arith) in
      search (ends, added)

  no_additional-Ends :
      (outgoing : SatPoint) (found : Option (SatPoint × List ℕ))
      → Ends (no_additional outgoing found)
  unfolding no_additional
  no_additional-Ends outgoing none h = absurd cc
  no_additional-Ends outgoing (some (inscribed, ids)) h = absurd cc

  select_outgoing-Ends : (b : TransactionBuilder) → Ends (select_outgoing rules b)
  unfolding select_outgoing
  select_outgoing-Ends b = search (ends, change_dust-Ends, no_additional-Ends)

  sat_offset_in-Ends :
      (amounts : List (ℕ × TxOut)) (outgoing : SatPoint) (inputs : List ℕ) (sat_offset : ℕ)
      → Ends (sat_offset_in amounts outgoing inputs sat_offset)
  unfolding sat_offset_in
  sat_offset_in-Ends amounts outgoing [] sat_offset = λ h. absurd cc
  sat_offset_in-Ends amounts outgoing (i ∷ is) sat_offset =
      if-Ends (i == outgoing.outpoint) (ok-Ends _) (
        >>=-Ends (amount_of-Ends amounts i)
          (λ value. sat_offset_in-Ends amounts outgoing is (sat_offset + value)))

  pad_before-Ends : (sat_offset : ℕ) (b : TransactionBuilder) → Ends (pad_before rules sat_offset b)
  unfolding pad_before
  pad_before-Ends sat_offset b = search ends

  align_outgoing-Ends : (b : TransactionBuilder) → Ends (align_outgoing rules b)
  unfolding align_outgoing calculate_sat_offset
  align_outgoing-Ends b = search (ends, sat_offset_in-Ends, pad_before-Ends) depth 20

  move_to_change-Ends :
      (value target : ℕ) (b : TransactionBuilder) → Ends (move_to_change rules value target b)
  unfolding move_to_change
  move_to_change-Ends value target b = search ends

  strip_excess-Ends :
      (value excess : ℕ) (b : TransactionBuilder) → Ends (strip_excess rules value excess b)
  unfolding strip_excess
  strip_excess-Ends value excess b = search (ends, change_dust-Ends, move_to_change-Ends)

  strip_value-Ends : (b : TransactionBuilder) → Ends (strip_value rules b)
  unfolding strip_value calculate_sat_offset
  strip_value-Ends b = search (ends, sat_offset_in-Ends, strip_excess-Ends)

  deduct_fee-Ends : (b : TransactionBuilder) → Ends (deduct_fee rules b)
  unfolding deduct_fee calculate_sat_offset
  deduct_fee-Ends b = search (ends, sat_offset_in-Ends) depth 20

  total_in-Ends : (amounts : List (ℕ × TxOut)) (inputs : List ℕ) → Ends (total_in amounts inputs)
  unfolding total_in
  total_in-Ends amounts [] = ok-Ends 0
  total_in-Ends amounts (i ∷ is) =
      let rest = total_in-Ends amounts is in search (ends, amount_of-Ends, rest)

  check_postage-Ends :
      (b : TransactionBuilder) (target : Target) (value : ℕ)
      → Ends (check_postage rules b target value)
  unfolding check_postage
  check_postage-Ends b postage value = search ends
  check_postage-Ends b (exact_postage limit) value = search ends
  check_postage-Ends b (value_of limit) value = search ends

  check_outputs-Ends :
      (b : TransactionBuilder) (sat_offset offset : ℕ) (outputs : List TxOut)
      → Ends (check_outputs rules b sat_offset offset outputs)
  unfolding check_outputs check_output
  check_outputs-Ends b sat_offset offset [] = ok-Ends tt
  check_outputs-Ends b sat_offset offset (o ∷ os) =
      let rest = check_outputs-Ends b sat_offset (offset + o.value) os in
      search (ends, check_postage-Ends, rest)

  build-Ends : (b : TransactionBuilder) → Ends (build rules b)
  unfolding build check_fee
  build-Ends b = search (ends, sat_offset_in-Ends, check_outputs-Ends, total_in-Ends) depth 30

  check_change-Ends : (addresses : List ℕ) → Ends (check_change addresses)
  unfolding check_change
  check_change-Ends [] h = absurd cc
  check_change-Ends (a ∷ []) h = absurd cc
  check_change-Ends (a ∷ c ∷ rest) h = absurd cc

  target_dust-Ends : (recipient : ℕ) (target : Target) → Ends (target_dust rules recipient target)
  unfolding target_dust
  target_dust-Ends recipient postage = search ends
  target_dust-Ends recipient (value_of value) = search ends
  target_dust-Ends recipient (exact_postage value) = search ends

  check_recipient-Ends : (b : TransactionBuilder) → Ends (check_recipient rules b)
  unfolding check_recipient
  check_recipient-Ends b = search (ends, target_dust-Ends)

  -- The transaction builder ends on every wallet, target and fee rate: neither the loop that pads the
  -- alignment output nor the one that adds value runs out of its fuel, one more than the unspent outputs.
  pub build_transaction-Ends : (b : TransactionBuilder) → build_transaction rules b ≢ diverged
  unfolding build_transaction
  build_transaction-Ends b =
      search
        (
          ends, check_change-Ends, check_recipient-Ends, select_outgoing-Ends, align_outgoing-Ends,
          pad_alignment_output-Ends, add_value-Ends, strip_value-Ends, deduct_fee-Ends, build-Ends,
        )
        depth 30
