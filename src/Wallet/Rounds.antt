-- ===== src/Wallet/Rounds.antt =====
-- The loops of `pad_alignment_output` and `add_value` keep the invariant of the transaction under
-- construction.
use lord.Prelude.{
  ℕ, zero, suc, ◌+◌, ◌-◌, ◌==◌, ltb, leb, true, false, some, [], ◌∷◌, ◌++◌, ◌≡◌, ◌≢◌, sym, ap, ◌∙◌,
  Bool-cases, length, get_elem?, inl, inr,
}
use mathlib.Core.Option.{some-injective}
use lord.Wallet.{
  TxOut, Rules, TransactionBuilder, ok, unwrap, ok_or, amount_of, contains, remove, last, total,
  >>=-eq-ok, contains-cons, value_overflow, not_enough_cardinal_utxos, unwrap-eq-ok, ok-injective,
}
use lord.Wallet.Cardinal.{is_cardinal, select_cardinal_utxo}
use lord.Wallet.Best.{select_cardinal_utxo-ok}
use lord.Wallet.Passes.{
  checked_sub, checked_add, set_first, set_last, change_dust, pad_round, pad_loop,
  pad_alignment_output, add_round, add_loop, add_value, min_value, estimate_fee,
}
use lord.Wallet.Invariant.{
  Holds, MaySpend, contains-remove, contains-append, sat_offset_in-front, sat_offset_in-append,
  total_in-front, total_in-append, set_first-IsShaped, set_last-IsShaped, set_first-script_pubkey,
}

module _ {start b : TransactionBuilder} (holds : Holds start b) (utxo value : ℕ)
    (member : contains b.utxos utxo ≡ true) (cardinal : is_cardinal b utxo ≡ true)
    (amount : amount_of b.amounts utxo ≡ ok value) where
  -- The outgoing output is not among the unspent ones.
  other_utxo : utxo ≢ (start.outgoing).outpoint
  other_utxo e = let unused = holds.unused in let found = rw e at member in absurd cc

  known_amount : amount_of start.amounts utxo ≡ ok value
  known_amount = rw (← holds.same_amounts) amount

  may_spend : MaySpend start utxo
  may_spend = inr (sym (holds.same_cardinal utxo) ∙ cardinal)

  pad-Holds :
      (first : TxOut)
      → get_elem? b.outputs 0 ≡ some first
      → (first.script_pubkey == start.recipient) ≡ false
      → Holds start (record b {
        utxos = remove utxo b.utxos;
        inputs = utxo ∷ b.inputs;
        outputs = set_first (first.value + value) b.outputs;
      })
  unfolding is_cardinal
  pad-Holds first at other =
      let shape =
        set_first-IsShaped start.recipient holds.offset value b.outputs first at other
          holds.shaped in
      record {
        same_amounts = holds.same_amounts;
        same_outgoing = holds.same_outgoing;
        same_recipient = holds.same_recipient;
        same_cardinal = holds.same_cardinal;
        unused = contains-remove utxo (start.outgoing).outpoint b.utxos holds.unused;
        spends = λ i m. elim (contains-cons utxo i b.inputs m) [
          | inl e ↦ rw (← e) may_spend
          | inr e ↦ holds.spends i e
        ];
        balanced =
            total_in-front start.amounts b.inputs utxo value (total b.outputs) known_amount
              holds.balanced
            ∙ ap ok (sym shape.1);
        offset = holds.offset + value;
        located =
            sat_offset_in-front start.amounts start.outgoing b.inputs utxo value holds.offset
              other_utxo known_amount holds.located;
        shaped = shape.0;
      }

  add-Holds :
      (tx_out : TxOut)
      → last b.outputs ≡ some tx_out
      → Holds start (record b {
        utxos = remove utxo b.utxos;
        inputs = b.inputs ++ utxo ∷ [];
        outputs = set_last (tx_out.value + value) b.outputs;
      })
  unfolding is_cardinal
  add-Holds tx_out at =
      let shape =
        set_last-IsShaped start.recipient holds.offset value b.outputs tx_out at holds.shaped in
      record {
        same_amounts = holds.same_amounts;
        same_outgoing = holds.same_outgoing;
        same_recipient = holds.same_recipient;
        same_cardinal = holds.same_cardinal;
        unused = contains-remove utxo (start.outgoing).outpoint b.utxos holds.unused;
        spends = λ i m. elim (contains-append b.inputs utxo i m) [
          | inl e ↦ holds.spends i e
          | inr e ↦ rw (← e) may_spend
        ];
        balanced =
            total_in-append start.amounts b.inputs utxo value (total b.outputs) known_amount
              holds.balanced
            ∙ ap ok (sym shape.1);
        offset = holds.offset;
        located =
            sat_offset_in-append start.amounts start.outgoing b.inputs 0 utxo holds.offset
              holds.located;
        shaped = shape.0;
      }

module _ (rules : Rules) (start : TransactionBuilder) where
  -- The first output is not the recipient's.
  abbrev PadsFirst : TransactionBuilder → Type 0
  PadsFirst b =
      (first : TxOut)
      → get_elem? b.outputs 0 ≡ some first
      → (first.script_pubkey == start.recipient) ≡ false

  pad_round-Holds :
      (dust_limit : ℕ) (first : TxOut) (b b' : TransactionBuilder)
      → Holds start b
      → PadsFirst b
      → get_elem? b.outputs 0 ≡ some first
      → pad_round rules dust_limit first b ≡ ok b'
      → Holds start b' × PadsFirst b'
  unfolding pad_round
  pad_round-Holds dust_limit first b b' holds pads at h =
      let (found, selected, e) =
        >>=-eq-ok (select_cardinal_utxo (dust_limit - first.value) true b) _ h in
      let (m, c, a, same, _) =
        select_cardinal_utxo-ok b (dust_limit - first.value) true found.0.0 found.0.1 found.1
          selected in
      rw (← ok-injective e, same)
        (
          pad-Holds holds found.0.0 found.0.1 m c a first at (pads first at),
          set_first-script_pubkey start.recipient b.outputs (first.value + found.0.1) pads,
        )

  pad_loop-Holds :
      (fuel dust_limit : ℕ) (b b' : TransactionBuilder)
      → Holds start b
      → PadsFirst b
      → pad_loop rules fuel dust_limit b ≡ ok b'
      → Holds start b'
  unfolding pad_loop
  pad_loop-Holds zero dust_limit b b' holds pads h = absurd cc
  pad_loop-Holds (suc fuel) dust_limit b b' holds pads h =
      let (first, at, h1) = >>=-eq-ok (unwrap (get_elem? b.outputs 0)) _ h in
      elim (Bool-cases (ltb first.value dust_limit)) [
        | inl more ↦
            let (next, round, rest) =
              >>=-eq-ok (pad_round rules dust_limit first b) _ (rw more at h1) in
            let kept =
              pad_round-Holds dust_limit first b next holds pads (unwrap-eq-ok _ at) round in
            pad_loop-Holds fuel dust_limit next b' kept.0 kept.1 rest
        | inr done ↦ rw (← ok-injective (rw done at h1)) holds
      ]

  pub pad_alignment_output-Holds :
      (b b' : TransactionBuilder)
      → Holds start b
      → pad_alignment_output rules b ≡ ok b'
      → Holds start b'
  unfolding pad_alignment_output
  pad_alignment_output-Holds b b' holds h =
      let (first, at, h1) = >>=-eq-ok (unwrap (get_elem? b.outputs 0)) _ h in
      elim (Bool-cases (first.script_pubkey == b.recipient)) [
        | inl alone ↦ rw (← ok-injective (rw alone at h1)) holds
        | inr other ↦
            let (dust_limit, _, looped) = >>=-eq-ok (change_dust rules b) _ (rw other at h1) in
            pad_loop-Holds (suc (length b.utxos)) dust_limit b b' holds
              (λ o e.
                let same = some-injective _ _ (sym (unwrap-eq-ok _ at) ∙ e) in
                rw (← same, ← holds.same_recipient) other)
              looped
      ]

  added-Holds :
      (b b' : TransactionBuilder) (utxo value left : ℕ) (tx_out : TxOut)
      (next : ℕ × TransactionBuilder)
      → Holds start b
      → contains b.utxos utxo ≡ true
      → is_cardinal b utxo ≡ true
      → amount_of b.amounts utxo ≡ ok value
      → b' ≡ record b { utxos = remove utxo b.utxos }
      → last b'.outputs ≡ some tx_out
      → (
        left,
        record b' {
          inputs = b'.inputs ++ utxo ∷ [];
          outputs = set_last (tx_out.value + value) b'.outputs;
        },
      )
        ≡ next
      → Holds start next.1
  added-Holds b b' utxo value left tx_out next holds m c a same at e =
      let tail : last b.outputs ≡ some tx_out = rw same at at in
      rw (← ap (λ (p : ℕ × TransactionBuilder). p.1) e, same)
        (add-Holds holds utxo value m c a tx_out tail)

  add_round-Holds :
      (deficit : ℕ) (b : TransactionBuilder) (next : ℕ × TransactionBuilder)
      → Holds start b
      → add_round rules deficit b ≡ ok next
      → Holds start next.1
  unfolding add_round
  add_round-Holds deficit b next holds h =
      let (needed, _, h1) =
        >>=-eq-ok (ok_or (checked_add deficit (rules.fee 57)) value_overflow) _ h in
      let (found, selected, h2) = >>=-eq-ok (select_cardinal_utxo needed false b) _ h1 in
      let (benefit, _, h3) =
        >>=-eq-ok (ok_or (checked_sub found.0.1 (rules.fee 57)) not_enough_cardinal_utxos) _ h2 in
      let (tx_out, at, h4) = >>=-eq-ok (unwrap (last (found.1).outputs)) _ h3 in
      let (m, c, a, same, _) =
        select_cardinal_utxo-ok b needed false found.0.0 found.0.1 found.1 selected in
      added-Holds b found.1 found.0.0 found.0.1 _ tx_out next holds m c a same (unwrap-eq-ok _ at)
        (ok-injective h4)

  add_loop-Holds :
      (fuel deficit : ℕ) (b b' : TransactionBuilder)
      → Holds start b
      → add_loop rules fuel deficit b ≡ ok b'
      → Holds start b'
  unfolding add_loop
  add_loop-Holds zero deficit b b' holds h = absurd cc
  add_loop-Holds (suc fuel) deficit b b' holds h = elim (Bool-cases (ltb 0 deficit)) [
    | inl more ↦
        let (next, round, rest) = >>=-eq-ok (add_round rules deficit b) _ (rw more at h) in
        add_loop-Holds fuel next.0 next.1 b' (add_round-Holds deficit b next holds round) rest
    | inr done ↦ rw (← ok-injective (rw done at h)) holds
  ]

  pub add_value-Holds :
      (b b' : TransactionBuilder) → Holds start b → add_value rules b ≡ ok b' → Holds start b'
  unfolding add_value
  add_value-Holds b b' holds h =
      let (tx_out, _, h1) = >>=-eq-ok (unwrap (last b.outputs)) _ h in
      let (needed, _, h2) =
        >>=-eq-ok
          (ok_or (checked_add (min_value rules b.target tx_out) (estimate_fee rules b))
            value_overflow)
          _ h1 in
      elim (Bool-cases (leb tx_out.value needed)) [
        | inl short ↦
            add_loop-Holds (suc (length b.utxos)) (needed - tx_out.value) b b' holds
              (rw short at h2)
        | inr enough ↦ rw (← ok-injective (rw enough at h2)) holds
      ]
