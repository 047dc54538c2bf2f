-- ===== src/Tests/Wallets.antt =====
-- The wallet's transaction builder at a wallet of three outputs.
use lord.Prelude.{
  here, ℕ, ◌+◌, ◌*◌, ◌≡◌, ◌≢◌, refl, true, false, some, List, [], ◌∷◌, length, inr, ◌==◌,
  if◌then◌else◌,
}
use lord.Wallet.{
  SatPoint, TxOut, Transaction, Rules, postage, TransactionBuilder, ok, err, duplicate_address,
  not_enough_cardinal_utxos, amount_of, contains, remove, get, last, popped, total, scripts,
  diverged,
}
use lord.Wallet.Cardinal.{
  is_cardinal, select_cardinal_utxo, best_of, visit, replaces, inscribed_utxos,
}
use lord.Wallet.Passes.{
  select_outgoing, align_outgoing, pad_alignment_output, add_value, strip_value, deduct_fee,
  change_dust, additional_inscription, calculate_sat_offset, sat_offset_in, pad_before, set_last,
  set_first, pad_loop, pad_round, checked_add, add_loop, has_recipient, strip_excess,
}
use lord.Wallet.Build.{
  new, keys, build, build_transaction, check_change, check_recipient, count_containing,
  count_inputs, count_outputs, lands_at, change_once, check_outputs, check_output, check_fee,
  above_dust, total_in,
}
use lord.Wallet.Serves.{Serves}
use lord.Wallet.Best.{select_cardinal_utxo-ok, select_cardinal_utxo-err}
use lord.Wallet.Ends.{build_transaction-Ends}
use lord.Wallet.Safe.{IsSafe, run_passes, build_transaction-IsSafe, run_passes-check_fee}
use lord.Wallet.Refusals.{Additional, select_outgoing_clear, build_transaction-duplicate_address}

abbrev flat_rules : Rules
flat_rules = record {
  vsize = λ inputs scripts. 10 + 57 * inputs + 43 * length scripts;
  fee = λ vsize. vsize;
  minimal_non_dust = λ script. 546;
  script_pubkey = λ address. address;
  from_script = λ script. some script;
  is_op_return = λ script. false;
}

abbrev small_amounts : List (ℕ × TxOut)
small_amounts =
    (1, record { script_pubkey = 50; value = 20000 })
    ∷ (2, record { script_pubkey = 51; value = 3000 })
    ∷ (3, record { script_pubkey = 52; value = 50000 })
    ∷ []

abbrev inscribed_sat : SatPoint
inscribed_sat = record { outpoint = 1; offset = 300 }

abbrev small_wallet : TransactionBuilder
small_wallet =
    new inscribed_sat ((inscribed_sat, 7 ∷ []) ∷ []) small_amounts [] [] 100 200 201 postage

abbrev small_transaction : Transaction
small_transaction = record {
  input = 2 ∷ 1 ∷ [];
  output =
      record { script_pubkey = 201; value = 3300 }
      ∷ record { script_pubkey = 100; value = 19490 }
      ∷ [];
}

build_small : build_transaction flat_rules small_wallet ≡ ok small_transaction
unfolding build_transaction new keys check_change check_recipient contains select_outgoing
    change_dust last additional_inscription get amount_of align_outgoing calculate_sat_offset
    sat_offset_in pad_before pad_alignment_output popped pad_loop pad_round select_cardinal_utxo
    best_of visit is_cardinal inscribed_utxos replaces remove set_first set_last add_value
    checked_add add_loop scripts strip_value has_recipient total strip_excess deduct_fee build
    count_containing count_inputs count_outputs lands_at change_once check_outputs check_output
    check_fee total_in above_dust
build_small = refl

build_transaction-IsSafe_example : IsSafe flat_rules small_wallet small_transaction
unfolding new
build_transaction-IsSafe_example =
    build_transaction-IsSafe flat_rules small_wallet refl refl small_transaction build_small

abbrev paid_wallet : TransactionBuilder
paid_wallet = record small_wallet {
  inputs = small_transaction.input;
  outputs = small_transaction.output;
  unused_change_addresses = 200 ∷ [];
  utxos = 3 ∷ [];
}

passes_small : run_passes flat_rules small_wallet ≡ ok paid_wallet
unfolding build_transaction new keys check_change check_recipient contains select_outgoing
    change_dust last additional_inscription get amount_of align_outgoing calculate_sat_offset
    sat_offset_in pad_before pad_alignment_output popped pad_loop pad_round select_cardinal_utxo
    best_of visit is_cardinal inscribed_utxos replaces remove set_first set_last add_value
    checked_add add_loop scripts strip_value has_recipient total strip_excess deduct_fee build
    count_containing count_inputs count_outputs lands_at change_once check_outputs check_output
    check_fee total_in above_dust
passes_small = refl

run_passes-check_fee_example :
    check_fee flat_rules paid_wallet
      (record { input = paid_wallet.inputs; output = paid_wallet.outputs })
    ≡ ok tt
unfolding new
run_passes-check_fee_example =
    run_passes-check_fee flat_rules small_wallet refl refl paid_wallet passes_small

build_transaction-Ends_example : build_transaction flat_rules small_wallet ≢ diverged
build_transaction-Ends_example = build_transaction-Ends flat_rules small_wallet

-- Of 20000, 3000 and 50000 the inscribed output is left out.
select_small :
    select_cardinal_utxo 246 true small_wallet
    ≡ ok ((2, 3000), record small_wallet { utxos = 1 ∷ 3 ∷ [] })
unfolding build_transaction new keys check_change check_recipient contains select_outgoing
    change_dust last additional_inscription get amount_of align_outgoing calculate_sat_offset
    sat_offset_in pad_before pad_alignment_output popped pad_loop pad_round select_cardinal_utxo
    best_of visit is_cardinal inscribed_utxos replaces remove set_first set_last add_value
    checked_add add_loop scripts strip_value has_recipient total strip_excess deduct_fee build
    count_containing count_inputs count_outputs lands_at change_once check_outputs check_output
    check_fee total_in above_dust
select_small = refl

select_cardinal_utxo-ok_example :
    (contains small_wallet.utxos 2 ≡ true)
    × (is_cardinal small_wallet 2 ≡ true)
    × (amount_of small_wallet.amounts 2 ≡ ok 3000)
    × (record small_wallet { utxos = 1 ∷ 3 ∷ [] }
        ≡ record small_wallet { utxos = remove 2 small_wallet.utxos })
    × ((w x : ℕ)
        → contains small_wallet.utxos w ≡ true
        → is_cardinal small_wallet w ≡ true
        → amount_of small_wallet.amounts w ≡ ok x
        → Serves true 246 3000 x)
select_cardinal_utxo-ok_example =
    select_cardinal_utxo-ok small_wallet 246 true 2 3000
      (record small_wallet { utxos = 1 ∷ 3 ∷ [] }) select_small

abbrev locked_wallet : TransactionBuilder
locked_wallet = record small_wallet { locked_utxos = 2 ∷ 3 ∷ [] }

select_locked : select_cardinal_utxo 246 true locked_wallet ≡ err not_enough_cardinal_utxos
unfolding build_transaction new keys check_change check_recipient contains select_outgoing
    change_dust last additional_inscription get amount_of align_outgoing calculate_sat_offset
    sat_offset_in pad_before pad_alignment_output popped pad_loop pad_round select_cardinal_utxo
    best_of visit is_cardinal inscribed_utxos replaces remove set_first set_last add_value
    checked_add add_loop scripts strip_value has_recipient total strip_excess deduct_fee build
    count_containing count_inputs count_outputs lands_at change_once check_outputs check_output
    check_fee total_in above_dust
select_locked = refl

select_cardinal_utxo-err_example :
    (not_enough_cardinal_utxos ≡ not_enough_cardinal_utxos)
    × ((w : ℕ) → contains locked_wallet.utxos w ≡ true → is_cardinal locked_wallet w ≡ false)
select_cardinal_utxo-err_example =
    select_cardinal_utxo-err locked_wallet 246 true not_enough_cardinal_utxos select_locked

-- The other inscription stands at the dust limit behind the outgoing sat.
abbrev far_sat : SatPoint
far_sat = record { outpoint = 1; offset = 846 }

abbrev far_wallet : TransactionBuilder
far_wallet = record small_wallet {
  outgoing = far_sat;
  inscriptions = (inscribed_sat, 7 ∷ []) ∷ (far_sat, 8 ∷ []) ∷ [];
}

abbrev far_selected : TransactionBuilder
far_selected = record far_wallet {
  utxos = 2 ∷ 3 ∷ [];
  inputs = 1 ∷ [];
  outputs = record { script_pubkey = 100; value = 20000 } ∷ [];
}

select_far : select_outgoing flat_rules far_wallet ≡ ok far_selected
unfolding build_transaction new keys check_change check_recipient contains select_outgoing
    change_dust last additional_inscription get amount_of align_outgoing calculate_sat_offset
    sat_offset_in pad_before pad_alignment_output popped pad_loop pad_round select_cardinal_utxo
    best_of visit is_cardinal inscribed_utxos replaces remove set_first set_last add_value
    checked_add add_loop scripts strip_value has_recipient total strip_excess deduct_fee build
    count_containing count_inputs count_outputs lands_at change_once check_outputs check_output
    check_fee total_in above_dust
select_far = refl

far_dust : change_dust flat_rules far_wallet ≡ ok 546
unfolding build_transaction new keys check_change check_recipient contains select_outgoing
    change_dust last additional_inscription get amount_of align_outgoing calculate_sat_offset
    sat_offset_in pad_before pad_alignment_output popped pad_loop pad_round select_cardinal_utxo
    best_of visit is_cardinal inscribed_utxos replaces remove set_first set_last add_value
    checked_add add_loop scripts strip_value has_recipient total strip_excess deduct_fee build
    count_containing count_inputs count_outputs lands_at change_once check_outputs check_output
    check_fee total_in above_dust
far_dust = refl

select_outgoing_clear_example : ¬ Additional 546 far_sat inscribed_sat
select_outgoing_clear_example =
    select_outgoing_clear flat_rules far_wallet far_selected 546 select_far far_dust inscribed_sat
      (7 ∷ []) (here _)

build_transaction-duplicate_address_example :
    build_transaction flat_rules (new inscribed_sat [] small_amounts [] [] 100 200 100 postage)
    ≡ err (duplicate_address (if 200 == 100 then 200 else 100))
build_transaction-duplicate_address_example =
    build_transaction-duplicate_address flat_rules inscribed_sat [] small_amounts [] [] 100 200 100
      postage 100 refl refl (inr (inr refl))
