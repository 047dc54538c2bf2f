-- ===== src/Wallet/Passes.antt =====
-- The passes of `TransactionBuilder` in src/wallet/transaction_builder.rs over the transaction under
-- construction, in the order in which `build_transaction` runs them. The loops of `pad_alignment_output`
-- and `add_value` take as fuel one more than the unspent outputs that are left, of which each round
-- removes one.
use lord.Prelude.{
  ℕ, zero, suc, ◌+◌, ◌-◌, ◌%◌, ◌^◌, ltb, leb, ◌==◌, Bool, true, false, not, ◌&&◌, Option, none,
  some, List, [], ◌∷◌, ◌++◌, reverse, length, get_elem?, if◌then◌else◌,
}
use lord.Wallet.{
  SatPoint, TxOut, Rules, Target, value_of, postage, exact_postage, TransactionBuilder, Outcome, ok,
  err, panic, diverged, ◌>>=◌, ◌>>◌, check, refuse, unwrap, ok_or, not_enough_cardinal_utxos,
  value_overflow, not_in_wallet, out_of_range, utxo_contains_additional_inscriptions, get,
  amount_of, remove, last, popped, scripts, total, max_postage, target_postage,
  additional_input_vbytes, additional_output_vbytes,
}
use lord.Wallet.Cardinal.{select_cardinal_utxo}

-- `Amount::checked_add` and `Amount::checked_sub`
unfoldable pub checked_add : ℕ → ℕ → Option ℕ
checked_add a b = if ltb (a + b) (2 ^ 64) then some (a + b) else none

unfoldable pub checked_sub : ℕ → ℕ → Option ℕ
checked_sub a b = if leb b a then some (a - b) else none

-- `outputs.last_mut().value = value`
unfoldable pub set_last : ℕ → List TxOut → List TxOut
set_last value [] = []
set_last value (o ∷ []) = record o { value = value } ∷ []
set_last value (o ∷ p ∷ ps) = o ∷ set_last value (p ∷ ps)

-- `outputs[0].value = value`
unfoldable pub set_first : ℕ → List TxOut → List TxOut
set_first value [] = []
set_first value (o ∷ os) = record o { value = value } ∷ os

-- The offset of the outgoing sat behind the inputs before its own.
unfoldable pub sat_offset_in : List (ℕ × TxOut) → SatPoint → List ℕ → ℕ → Outcome ℕ
sat_offset_in amounts outgoing [] sat_offset = panic
sat_offset_in amounts outgoing (outpoint ∷ inputs) sat_offset =
    let rest = do
      value ← amount_of amounts outpoint
      sat_offset_in amounts outgoing inputs (sat_offset + value)
    in if outpoint == outgoing.outpoint then ok (sat_offset + outgoing.offset) else rest

unfoldable pub calculate_sat_offset : TransactionBuilder → Outcome ℕ
calculate_sat_offset b = sat_offset_in b.amounts b.outgoing b.inputs 0

-- The last inscription of the outgoing output that would be sent too, at most `dust_limit` behind.
unfoldable pub additional_inscription :
    ℕ → SatPoint → List (SatPoint × List ℕ) → Option (SatPoint × List ℕ)
additional_inscription dust_limit outgoing [] = none
additional_inscription dust_limit outgoing ((inscribed, ids) ∷ rest) =
    if (outgoing.outpoint == inscribed.outpoint
      && not (outgoing.offset == inscribed.offset)
      && ltb outgoing.offset (inscribed.offset + dust_limit))
    then some (inscribed, ids)
    else additional_inscription dust_limit outgoing rest

unfoldable pub no_additional : SatPoint → Option (SatPoint × List ℕ) → Outcome (Unit {0})
no_additional outgoing none = ok tt
no_additional outgoing (some (inscribed, ids)) =
    err (utxo_contains_additional_inscriptions outgoing inscribed ids)

-- The most that the recipient may have, and what is left to it where it has more.
unfoldable pub postage_limits : Target → ℕ × ℕ
postage_limits (exact_postage value) = (value, value)
postage_limits postage = (max_postage, target_postage)
postage_limits (value_of value) = (value, value)

unfoldable pub has_recipient : ℕ → List TxOut → Bool
has_recipient recipient [] = false
has_recipient recipient (o ∷ os) =
    if o.script_pubkey == recipient then true else has_recipient recipient os

module _ (rules : Rules) where
  unfoldable pub estimate_vbytes : TransactionBuilder → ℕ
  estimate_vbytes b = rules.vsize (length b.inputs) (scripts b.outputs)

  unfoldable pub estimate_fee : TransactionBuilder → ℕ
  unfolding estimate_vbytes
  estimate_fee b = rules.fee (estimate_vbytes b)

  -- The dust limit of the change address that is used next.
  unfoldable pub change_dust : TransactionBuilder → Outcome ℕ
  change_dust b = do
    address ← unwrap (last b.unused_change_addresses)
    ok (rules.minimal_non_dust (rules.script_pubkey address))

  -- For an output of no sats `amount - 1` wraps.
  unfoldable pub select_outgoing : TransactionBuilder → Outcome TransactionBuilder
  unfolding no_additional
  select_outgoing b = do
    dust_limit ← change_dust b
    no_additional b.outgoing (additional_inscription dust_limit b.outgoing (reverse b.inscriptions))
    tx_out ← ok_or (get b.amounts b.outgoing.outpoint) (not_in_wallet b.outgoing)
    let amount = tx_out.value
    refuse (leb amount b.outgoing.offset)
        (out_of_range b.outgoing ((amount + (2 ^ 64 - 1)) % 2 ^ 64))
    ok (record b {
      utxos = remove b.outgoing.outpoint b.utxos;
      inputs = b.inputs ++ b.outgoing.outpoint ∷ [];
      outputs = b.outputs ++ record { script_pubkey = b.recipient; value = amount } ∷ [];
    })

  -- The padding output of `align_outgoing`, the rest of the value after it.
  unfoldable pub pad_before : ℕ → TransactionBuilder → Outcome TransactionBuilder
  unfolding checked_sub
  pad_before sat_offset b = do
    address ← unwrap (last b.unused_change_addresses)
    tx_out ← unwrap (last b.outputs)
    value ← unwrap (checked_sub tx_out.value sat_offset)
    ok (record b {
      unused_change_addresses = popped b.unused_change_addresses;
      outputs =
          record { script_pubkey = rules.script_pubkey address; value = sat_offset }
          ∷ set_last value b.outputs;
    })

  unfoldable pub align_outgoing : TransactionBuilder → Outcome TransactionBuilder
  align_outgoing b = do
    check (length b.outputs == 1)
    first ← unwrap (get_elem? b.outputs 0)
    check (first.script_pubkey == b.recipient)
    sat_offset ← calculate_sat_offset b
    if sat_offset == 0 then ok b else pad_before sat_offset b

  -- A round of `pad_alignment_output`
  unfoldable pub pad_round : ℕ → TxOut → TransactionBuilder → Outcome TransactionBuilder
  pad_round dust_limit first b = do
    found ← select_cardinal_utxo (dust_limit - first.value) true b
    let b' = found.1
    ok (record b' {
      inputs = found.0.0 ∷ b'.inputs;
      outputs = set_first (first.value + found.0.1) b'.outputs;
    })

  unfoldable pub pad_loop : ℕ → ℕ → TransactionBuilder → Outcome TransactionBuilder
  pad_loop zero dust_limit b = diverged
  pad_loop (suc fuel) dust_limit b = do
    first ← unwrap (get_elem? b.outputs 0)
    let more = do b' ← pad_round dust_limit first b; pad_loop fuel dust_limit b'
    if ltb first.value dust_limit then more else ok b

  unfoldable pub pad_alignment_output : TransactionBuilder → Outcome TransactionBuilder
  pad_alignment_output b = do
    first ← unwrap (get_elem? b.outputs 0)
    let padded = do dust_limit ← change_dust b; pad_loop (suc (length b.utxos)) dust_limit b
    if first.script_pubkey == b.recipient then ok b else padded

  unfoldable pub min_value : Target → TxOut → ℕ
  min_value postage tx_out = rules.minimal_non_dust tx_out.script_pubkey
  min_value (value_of value) tx_out = value
  min_value (exact_postage value) tx_out = value

  -- A round of `add_value`: the builder with one more input, and the deficit that is left.
  unfoldable pub add_round : ℕ → TransactionBuilder → Outcome (ℕ × TransactionBuilder)
  unfolding checked_sub
  add_round deficit b = do
    let additional_fee = rules.fee additional_input_vbytes
    needed ← ok_or (checked_add deficit additional_fee) value_overflow
    found ← select_cardinal_utxo needed false b
    benefit ← ok_or (checked_sub found.0.1 additional_fee) not_enough_cardinal_utxos
    let b' = found.1
    tx_out ← unwrap (last b'.outputs)
    ok (
      if ltb deficit benefit then 0 else deficit - benefit,
      record b' {
        inputs = b'.inputs ++ found.0.0 ∷ [];
        outputs = set_last (tx_out.value + found.0.1) b'.outputs;
      },
    )

  unfoldable pub add_loop : ℕ → ℕ → TransactionBuilder → Outcome TransactionBuilder
  add_loop zero deficit b = diverged
  add_loop (suc fuel) deficit b =
      let more = (do next ← add_round deficit b; add_loop fuel next.0 next.1) in
      if ltb 0 deficit then more else ok b

  unfoldable pub add_value : TransactionBuilder → Outcome TransactionBuilder
  unfolding checked_sub min_value estimate_fee
  add_value b = do
    tx_out ← unwrap (last b.outputs)
    needed ← ok_or (checked_add (min_value b.target tx_out) (estimate_fee b)) value_overflow
    let added = add_loop (suc (length b.utxos)) (needed - tx_out.value) b
    if leb tx_out.value needed then added else ok b

  unfoldable pub move_to_change : ℕ → ℕ → TransactionBuilder → Outcome TransactionBuilder
  move_to_change value target b = do
    address ← unwrap (last b.unused_change_addresses)
    ok (record b {
      unused_change_addresses = popped b.unused_change_addresses;
      outputs =
          set_last target b.outputs
          ++ record { script_pubkey = rules.script_pubkey address; value = value - target } ∷ [];
    })

  -- Whether the change is worth an output of its own.
  unfoldable pub strip_excess : ℕ → ℕ → TransactionBuilder → Outcome TransactionBuilder
  unfolding checked_sub move_to_change change_dust postage_limits
  strip_excess value excess b = do
    let limits = postage_limits b.target
    let stripped = do
      rest ← unwrap (checked_sub value limits.1)
      dust_limit ← change_dust b
      let worth = dust_limit + rules.fee (estimate_vbytes b + additional_output_vbytes)
      if ltb worth rest then move_to_change value limits.1 b else ok b
    if ltb limits.0 excess then stripped else ok b

  unfoldable pub strip_value : TransactionBuilder → Outcome TransactionBuilder
  unfolding checked_sub estimate_vbytes
  strip_value b = do
    sat_offset ← calculate_sat_offset b
    check (has_recipient b.recipient b.outputs)
    value ← unwrap (checked_sub (total b.outputs) sat_offset)
    let fee = rules.fee (estimate_vbytes b)
    if leb fee value then strip_excess value (value - fee) b else ok b

  unfoldable pub deduct_fee : TransactionBuilder → Outcome TransactionBuilder
  unfolding checked_sub estimate_fee
  deduct_fee b = do
    sat_offset ← calculate_sat_offset b
    let fee = estimate_fee b
    tx_out ← unwrap (last b.outputs)
    rest ← unwrap (checked_sub (total b.outputs) fee)
    check (ltb sat_offset rest)
    check (leb fee tx_out.value)
    ok (record b { outputs = set_last (tx_out.value - fee) b.outputs })
