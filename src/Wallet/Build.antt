-- ===== src/Wallet/Build.antt =====
-- `build` and `build_transaction` of src/wallet/transaction_builder.rs: the transaction of the builder,
-- once it passes the asserts of `build`, each group of which is a definition here.
use lord.Prelude.{
  ℕ, suc, ◌+◌, max, ltb, leb, ◌==◌, Bool, true, false, ◌&&◌, ◌||◌, List, [], ◌∷◌, length,
  if◌then◌else◌,
}
use lord.Wallet.{
  SatPoint, TxOut, Transaction, Rules, Target, value_of, postage, exact_postage, TransactionBuilder,
  Outcome, ok, err, panic, ◌>>=◌, ◌>>◌, check, refuse, unwrap, ok_or, duplicate_address, dust,
  invalid_address, amount_of, contains, scripts, total, max_postage, additional_output_vbytes,
}
use lord.Wallet.Passes.{
  checked_sub, sat_offset_in, select_outgoing, align_outgoing, pad_alignment_output, add_value,
  strip_value, deduct_fee,
}

-- The outpoints of the amounts
unfoldable pub keys : List (ℕ × TxOut) → List ℕ
keys [] = []
keys ((key, tx_out) ∷ rest) = key ∷ keys rest

-- The unspent outputs with this outpoint and more than `offset` sats.
unfoldable pub count_containing : List (ℕ × TxOut) → ℕ → ℕ → ℕ
count_containing [] outpoint offset = 0
count_containing ((key, tx_out) ∷ rest) outpoint offset =
    if (key == outpoint && ltb offset tx_out.value)
    then suc (count_containing rest outpoint offset)
    else count_containing rest outpoint offset

unfoldable pub count_inputs : List ℕ → ℕ → ℕ
count_inputs [] outpoint = 0
count_inputs (i ∷ is) outpoint =
    if i == outpoint then suc (count_inputs is outpoint) else count_inputs is outpoint

unfoldable pub count_outputs : List TxOut → ℕ → ℕ
count_outputs [] script_pubkey = 0
count_outputs (o ∷ os) script_pubkey =
    if o.script_pubkey == script_pubkey
    then suc (count_outputs os script_pubkey)
    else count_outputs os script_pubkey

-- The sat at `sat_offset` is in an output of the recipient; the outputs before end at `output_end`.
unfoldable pub lands_at : List TxOut → ℕ → ℕ → ℕ → Bool
lands_at [] recipient sat_offset output_end = false
lands_at (o ∷ os) recipient sat_offset output_end =
    if ltb sat_offset (output_end + o.value)
    then o.script_pubkey == recipient
    else lands_at os recipient sat_offset (output_end + o.value)

-- The sum of the inputs' amounts
unfoldable pub total_in : List (ℕ × TxOut) → List ℕ → Outcome ℕ
total_in amounts [] = ok 0
total_in amounts (i ∷ is) = do
  value ← amount_of amounts i
  rest ← total_in amounts is
  ok (value + rest)

-- Fewer than two change addresses are one address, twice.
unfoldable pub check_change : List ℕ → Outcome (Unit {0})
check_change [] = panic
check_change (address ∷ []) = err (duplicate_address address)
check_change (address ∷ other ∷ rest) = ok tt

module _ (rules : Rules) where
  unfoldable pub change_once : List ℕ → List TxOut → Bool
  change_once [] outputs = true
  change_once (address ∷ rest) outputs =
      leb (count_outputs outputs (rules.script_pubkey address)) 1 && change_once rest outputs

  unfoldable pub is_change : List ℕ → ℕ → Bool
  is_change [] script_pubkey = false
  is_change (address ∷ rest) script_pubkey =
      rules.script_pubkey address == script_pubkey || is_change rest script_pubkey

  unfoldable pub max_dust : List ℕ → ℕ
  max_dust [] = 0
  max_dust (address ∷ rest) =
      max (rules.minimal_non_dust (rules.script_pubkey address)) (max_dust rest)

  unfoldable pub check_postage : TransactionBuilder → Target → ℕ → Outcome (Unit {0})
  unfolding max_dust checked_sub
  check_postage b postage value =
      check (leb value (max_postage + rules.fee additional_output_vbytes))
  check_postage b (exact_postage limit) value =
      check (leb value (limit + rules.fee additional_output_vbytes))
  check_postage b (value_of limit) value = do
    excess ← unwrap (checked_sub value limit)
    check (leb excess (max_dust b.change_addresses + rules.fee additional_output_vbytes))

  -- An output of the recipient starts at the sat and has no excess; the others are change.
  unfoldable pub check_output : TransactionBuilder → ℕ → ℕ → TxOut → Outcome (Unit {0})
  unfolding is_change check_postage
  check_output b sat_offset offset o =
      let to_recipient = (do check_postage b b.target o.value; check (offset == sat_offset)) in
      if o.script_pubkey == b.recipient
      then to_recipient
      else check (is_change b.change_addresses o.script_pubkey)

  unfoldable pub check_outputs : TransactionBuilder → ℕ → ℕ → List TxOut → Outcome (Unit {0})
  check_outputs b sat_offset offset [] = ok tt
  check_outputs b sat_offset offset (o ∷ os) = do
    check_output b sat_offset offset o
    check_outputs b sat_offset (offset + o.value) os

  -- `fee` for the size with signatures is what the inputs have over the outputs.
  unfoldable pub check_fee : TransactionBuilder → Transaction → Outcome (Unit {0})
  unfolding total_in checked_sub
  check_fee b transaction = do
    total_input ← total_in b.amounts transaction.input
    actual_fee ← unwrap (checked_sub total_input (total transaction.output))
    check (
        actual_fee
        == rules.fee (rules.vsize (length transaction.input) (scripts transaction.output)))

  unfoldable pub above_dust : List TxOut → Bool
  above_dust [] = true
  above_dust (o ∷ os) = leb (rules.minimal_non_dust o.script_pubkey) o.value && above_dust os

  unfoldable pub build : TransactionBuilder → Outcome Transaction
  build b = do
    let transaction : Transaction = record { input = b.inputs; output = b.outputs }
    let outpoint = b.outgoing.outpoint
    check (count_containing b.amounts outpoint b.outgoing.offset == 1)
    check (count_inputs b.inputs outpoint == 1)
    sat_offset ← sat_offset_in b.amounts b.outgoing b.inputs 0
    check (lands_at b.outputs b.recipient sat_offset 0)
    check (count_outputs b.outputs b.recipient == 1)
    check (change_once b.change_addresses b.outputs)
    check_outputs b sat_offset 0 b.outputs
    check_fee b transaction
    check (above_dust b.outputs)
    ok transaction

  unfoldable pub target_dust : ℕ → Target → Outcome (Unit {0})
  target_dust recipient postage = ok tt
  target_dust recipient (value_of value) =
      refuse (ltb value (rules.minimal_non_dust recipient))
        (dust value (rules.minimal_non_dust recipient))
  target_dust recipient (exact_postage value) =
      refuse (ltb value (rules.minimal_non_dust recipient))
        (dust value (rules.minimal_non_dust recipient))

  unfoldable pub check_recipient : TransactionBuilder → Outcome (Unit {0})
  unfolding target_dust
  check_recipient b = do
    address ← ok_or (rules.from_script b.recipient) invalid_address
    refuse (contains b.change_addresses address) (duplicate_address address)
    target_dust b.recipient b.target

  unfoldable pub build_transaction : TransactionBuilder → Outcome Transaction
  build_transaction b = do
    check_change b.change_addresses
    if rules.is_op_return b.recipient then ok tt else check_recipient b
    selected ← select_outgoing rules b
    aligned ← align_outgoing rules selected
    padded ← pad_alignment_output rules aligned
    added ← add_value rules padded
    stripped ← strip_value rules added
    deducted ← deduct_fee rules stripped
    build deducted

-- `change` has two addresses, of which `change_addresses` is the set.
unfoldable pub new :
    SatPoint
    → List (SatPoint × List ℕ)
    → List (ℕ × TxOut)
    → List ℕ
    → List ℕ
    → ℕ
    → ℕ
    → ℕ
    → Target
    → TransactionBuilder
unfolding keys
new outgoing inscriptions amounts locked_utxos runic_utxos recipient change_0 change_1 target =
    record {
      amounts = amounts;
      change_addresses =
          if change_0 == change_1
          then change_0 ∷ []
          else if ltb change_0 change_1
          then change_0 ∷ change_1 ∷ []
          else change_1 ∷ change_0 ∷ [];
      inputs = [];
      inscriptions = inscriptions;
      locked_utxos = locked_utxos;
      outgoing = outgoing;
      outputs = [];
      recipient = recipient;
      runic_utxos = runic_utxos;
      target = target;
      unused_change_addresses = change_0 ∷ change_1 ∷ [];
      utxos = keys amounts;
    }
