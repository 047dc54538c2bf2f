-- ===== src/Wallet/Cardinal.antt =====
-- `select_cardinal_utxo` of src/wallet/transaction_builder.rs: the unspent output that pads a transaction.
use lord.Prelude.{
  ℕ, ◌-◌, max, min, ltb, leb, Bool, not, ◌&&◌, ◌||◌, Option, none, some, List, [], ◌∷◌,
  if◌then◌else◌,
}
use lord.Wallet.{
  SatPoint, TransactionBuilder, Outcome, ok, ◌>>=◌, ok_or, not_enough_cardinal_utxos, amount_of,
  contains, remove,
}

-- `inscribed_utxos`
unfoldable pub inscribed_utxos : List (SatPoint × List ℕ) → List ℕ
inscribed_utxos [] = []
inscribed_utxos ((satpoint, ids) ∷ rest) = satpoint.outpoint ∷ inscribed_utxos rest

-- The outputs that the loop does not skip.
unfoldable pub is_cardinal : TransactionBuilder → ℕ → Bool
is_cardinal b utxo = not (
    contains b.runic_utxos utxo
    || contains (inscribed_utxos b.inscriptions) utxo
    || contains b.locked_utxos utxo)

unfoldable pub abs_diff : ℕ → ℕ → ℕ
abs_diff a b = max a b - min a b

-- Whether the current value replaces the best one.
unfoldable pub replaces : Bool → ℕ → ℕ → ℕ → Bool
unfolding abs_diff
replaces prefer_under target_value best_value current_value =
    let is_closer = ltb (abs_diff current_value target_value) (abs_diff best_value target_value) in
    let not_preference_but_closer =
      if prefer_under
      then ltb target_value best_value && is_closer
      else ltb best_value target_value && is_closer in
    let is_preference_and_closer =
      if prefer_under
      then leb current_value target_value && is_closer
      else leb target_value current_value && is_closer in
    let newly_meets_preference =
      if prefer_under
      then ltb target_value best_value && leb current_value target_value
      else ltb best_value target_value && leb target_value current_value in
    is_preference_and_closer || not_preference_but_closer || newly_meets_preference

-- The best match before a round is the current output where there is none yet.
unfoldable pub previous : Option (ℕ × ℕ) → ℕ × ℕ → ℕ × ℕ
previous none current = current
previous (some best) current = best

unfoldable pub visit : TransactionBuilder → ℕ → Bool → ℕ → Option (ℕ × ℕ) → Outcome (Option (ℕ × ℕ))
unfolding previous
visit b target_value prefer_under utxo best_match =
    let found = do
      current_value ← amount_of b.amounts utxo
      let best = previous best_match (utxo, current_value)
      let replaced = replaces prefer_under target_value best.1 current_value
      ok (some (if replaced then (utxo, current_value) else best))
    in if is_cardinal b utxo then found else ok best_match

unfoldable pub best_of :
    TransactionBuilder → ℕ → Bool → List ℕ → Option (ℕ × ℕ) → Outcome (Option (ℕ × ℕ))
best_of b target_value prefer_under [] best_match = ok best_match
best_of b target_value prefer_under (utxo ∷ utxos) best_match = do
  next ← visit b target_value prefer_under utxo best_match
  best_of b target_value prefer_under utxos next

-- The best match is taken from the unspent outputs.
unfoldable pub take_utxo :
    TransactionBuilder → Option (ℕ × ℕ) → Outcome ((ℕ × ℕ) × TransactionBuilder)
take_utxo b best_match = do
  best ← ok_or best_match not_enough_cardinal_utxos
  ok (best, record b { utxos = remove best.0 b.utxos })

unfoldable pub select_cardinal_utxo :
    ℕ → Bool → TransactionBuilder → Outcome ((ℕ × ℕ) × TransactionBuilder)
unfolding take_utxo
select_cardinal_utxo target_value prefer_under b = do
  best_match ← best_of b target_value prefer_under b.utxos none
  take_utxo b best_match
