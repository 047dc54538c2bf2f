-- ===== src/Wallet/Safe.antt =====
-- What a transaction of the builder spends and pays, and where it sends the outgoing sat.
use lord.Prelude.{
  In, here, there, ◌∷◌, Bool, false, ◌⊎◌, ◌≢◌, inl, inr, ◌||◌, not, ℕ, ◌+◌, ◌-◌, ◌≤◌, ◌==◌, ltb,
  leb, true, some, List, [], ◌≡◌, refl, sym, ap, ◌∙◌, arith, length, leb→le, if◌then◌else◌,
}
use lord.Wallet.Cardinal.{is_cardinal, inscribed_utxos}
use lord.Wallet.{
  SatPoint, TxOut, Transaction, Rules, TransactionBuilder, Outcome, ok, ◌>>=◌, check, unwrap,
  contains, last, scripts, total, >>=-eq-ok, unwrap-eq-ok, ok-injective, check-eq-ok,
}
use lord.Wallet.Passes.{
  checked_sub, set_last, sat_offset_in, calculate_sat_offset, estimate_vbytes, estimate_fee,
  strip_value, deduct_fee, select_outgoing, align_outgoing, pad_alignment_output, add_value,
}
use lord.Wallet.Build.{
  total_in, check_fee, build, build_transaction, check_change, check_recipient, check_outputs,
  lands_at, count_containing, count_inputs, count_outputs, change_once, above_dust,
}
use lord.Wallet.Invariant.{Holds}
use lord.Wallet.Align.{align_outgoing-Holds}
use lord.Wallet.Rounds.{pad_alignment_output-Holds, add_value-Holds}
use lord.Wallet.Strip.{
  Lands, set_last-Lands, set_last-total, set_last-scripts, strip_value-Stripped,
}

-- No runes, no inscription and no lock
abbrev pub IsFree : TransactionBuilder → ℕ → Type 0
IsFree b utxo =
    (contains b.runic_utxos utxo ≡ false)
    × ((inscribed : SatPoint) (ids : List ℕ)
        → In (inscribed, ids) b.inscriptions
        → inscribed.outpoint ≢ utxo)
    × (contains b.locked_utxos utxo ≡ false)

not-contains-inscribed :
    (inscriptions : List (SatPoint × List ℕ)) (utxo : ℕ)
    → contains (inscribed_utxos inscriptions) utxo ≡ false
    → (inscribed : SatPoint) (ids : List ℕ) → In (inscribed, ids) inscriptions
    → inscribed.outpoint ≢ utxo
unfolding inscribed_utxos contains
not-contains-inscribed [] utxo h inscribed ids m e = elim m [ ]
not-contains-inscribed (_ ∷ rest) utxo h inscribed ids (here _) e = ground arith
not-contains-inscribed ((s, i) ∷ rest) utxo h inscribed ids (there _ _ m) e =
    not-contains-inscribed rest utxo (tail s.outpoint utxo (contains (inscribed_utxos rest) utxo) h)
      inscribed ids m e
  where
    tail : (a u : ℕ) (c : Bool) → ((a == u) || c) ≡ false → c ≡ false
    tail a u c e = ground arith

is_cardinal-IsFree : (b : TransactionBuilder) (utxo : ℕ) → is_cardinal b utxo ≡ true → IsFree b utxo
unfolding is_cardinal
is_cardinal-IsFree b utxo h =
    let parts =
      none_of (contains b.runic_utxos utxo) (contains (inscribed_utxos b.inscriptions) utxo)
        (contains b.locked_utxos utxo) h in
    (parts.0, not-contains-inscribed b.inscriptions utxo parts.1, parts.2)
  where
    none_of : (r i l : Bool) → not (r || i || l) ≡ true → (r ≡ false) × (i ≡ false) × (l ≡ false)
    none_of false false false h = (refl, refl, refl)
    none_of false false true h = absurd cc
    none_of false true l h = absurd cc
    none_of true i l h = absurd cc

module _ (rules : Rules) (start : TransactionBuilder) where
  -- What is spent, what is paid, and where the outgoing sat goes.
  pub record IsSafe (transaction : Transaction) : Type 0 where
    pub spends :
        (i : ℕ)
        → contains transaction.input i ≡ true
        → (i ≡ (start.outgoing).outpoint) ⊎ IsFree start i
    pub pays :
        total_in start.amounts transaction.input
        ≡ ok (
            total transaction.output
            + rules.fee (rules.vsize (length transaction.input) (scripts transaction.output)))
    pub offset : ℕ
    pub located : sat_offset_in start.amounts start.outgoing transaction.input 0 ≡ ok offset
    pub lands : Lands start.recipient offset transaction.output

  abbrev transaction_of : TransactionBuilder → Transaction
  transaction_of b = record { input = b.inputs; output = b.outputs }

  deduct_fee-eq :
      (b b' : TransactionBuilder)
      → deduct_fee rules b ≡ ok b'
      → (tx_out : TxOut) × (last b.outputs ≡ some tx_out)
        × (estimate_fee rules b ≤ tx_out.value)
        × (b' ≡ record b { outputs = set_last (tx_out.value - estimate_fee rules b) b.outputs })
  unfolding deduct_fee
  deduct_fee-eq b b' h =
      let (sat_offset, _, h1) = >>=-eq-ok (calculate_sat_offset b) _ h in
      let (tx_out, at, h2) = >>=-eq-ok (unwrap (last b.outputs)) _ h1 in
      let (rest, _, h3) =
        >>=-eq-ok (unwrap (checked_sub (total b.outputs) (estimate_fee rules b))) _ h2 in
      let (_, _, h4) = >>=-eq-ok (check (ltb sat_offset rest)) _ h3 in
      let (_, enough, h5) = >>=-eq-ok (check (leb (estimate_fee rules b) tx_out.value)) _ h4 in
      (
        tx_out,
        unwrap-eq-ok _ at,
        leb→le (estimate_fee rules b) tx_out.value (check-eq-ok _ enough),
        sym (ok-injective h5),
      )

  paid-IsSafe :
      (b : TransactionBuilder) (holds : Holds start b) (outputs : List TxOut) (tx_out : TxOut)
      (fee : ℕ) (offset : ℕ)
      → total outputs ≡ total b.outputs
      → sat_offset_in start.amounts start.outgoing b.inputs 0 ≡ ok offset
      → Lands start.recipient offset outputs
      → last outputs ≡ some tx_out
      → fee ≡ rules.fee (rules.vsize (length b.inputs) (scripts outputs))
      → fee ≤ tx_out.value
      → IsSafe (record { input = b.inputs; output = set_last (tx_out.value - fee) outputs })
  paid-IsSafe b holds outputs tx_out fee offset same at lands tail is_fee enough =
      let sum = set_last-total outputs tx_out fee tail enough in
      record {
        spends = λ i m. elim (holds.spends i m) [
          | inl e ↦ inl e
          | inr c ↦ inr (is_cardinal-IsFree start i c)
        ];
        pays =
            holds.balanced
            ∙ ap ok (
                sym same
                ∙ sum
                ∙ ap (λ (t : ℕ). total (set_last (tx_out.value - fee) outputs) + t)
                    (is_fee
                      ∙ ap (λ s. rules.fee (rules.vsize (length b.inputs) s))
                          (sym (set_last-scripts outputs (tx_out.value - fee)))));
        offset = offset;
        located = at;
        lands = set_last-Lands start.recipient offset (tx_out.value - fee) outputs lands;
      }

  deduct_fee-IsSafe :
      (b b1 b2 : TransactionBuilder)
      → Holds start b
      → strip_value rules b ≡ ok b1
      → deduct_fee rules b1 ≡ ok b2
      → IsSafe (transaction_of b2) × (b2.amounts ≡ start.amounts)
  unfolding estimate_fee estimate_vbytes
  deduct_fee-IsSafe b b1 b2 holds hs hd =
      let s = strip_value-Stripped rules start b b1 holds hs in
      let b1' = record b { outputs = s.outputs; unused_change_addresses = s.unused } in
      let (tx_out, tail, enough, e) = deduct_fee-eq b1' b2 (rw s.is at hd) in
      rw e (
        paid-IsSafe b holds s.outputs tx_out (estimate_fee rules b1') s.offset s.same_total
            s.located s.lands tail refl enough,
        holds.same_amounts,
      )

  build-eq :
      (b : TransactionBuilder) (tx : Transaction) → build rules b ≡ ok tx → tx ≡ transaction_of b
  unfolding build
  build-eq b tx h =
      let (_, _, h1) =
        >>=-eq-ok
          (check (count_containing b.amounts (b.outgoing).outpoint (b.outgoing).offset == 1)) _ h in
      let (_, _, h2) = >>=-eq-ok (check (count_inputs b.inputs (b.outgoing).outpoint == 1)) _ h1 in
      let (sat_offset, _, h3) = >>=-eq-ok (sat_offset_in b.amounts b.outgoing b.inputs 0) _ h2 in
      let (_, _, h4) = >>=-eq-ok (check (lands_at b.outputs b.recipient sat_offset 0)) _ h3 in
      let (_, _, h5) = >>=-eq-ok (check (count_outputs b.outputs b.recipient == 1)) _ h4 in
      let (_, _, h6) = >>=-eq-ok (check (change_once rules b.change_addresses b.outputs)) _ h5 in
      let (_, _, h7) = >>=-eq-ok (check_outputs rules b sat_offset 0 b.outputs) _ h6 in
      let (_, _, h8) = >>=-eq-ok (check_fee rules b (transaction_of b)) _ h7 in
      let (_, _, h9) = >>=-eq-ok (check (above_dust rules b.outputs)) _ h8 in sym (ok-injective h9)

  -- What `build_transaction` runs between its first checks and `build`.
  abbrev pub run_passes : Outcome TransactionBuilder
  run_passes = do
    selected ← select_outgoing rules start
    aligned ← align_outgoing rules selected
    padded ← pad_alignment_output rules aligned
    added ← add_value rules padded
    stripped ← strip_value rules added
    deduct_fee rules stripped

  fee-check_fee :
      (b : TransactionBuilder)
      → IsSafe (transaction_of b)
      → b.amounts ≡ start.amounts
      → check_fee rules b (transaction_of b) ≡ ok tt
  unfolding check_fee checked_sub
  fee-check_fee b safe same = rw (same, safe.pays) (ground arith)

  module _ (no_inputs : start.inputs ≡ []) (no_outputs : start.outputs ≡ []) where
    passes-IsSafe :
        (s a p v t d : TransactionBuilder)
        → select_outgoing rules start ≡ ok s
        → align_outgoing rules s ≡ ok a
        → pad_alignment_output rules a ≡ ok p
        → add_value rules p ≡ ok v
        → strip_value rules v ≡ ok t
        → deduct_fee rules t ≡ ok d
        → IsSafe (transaction_of d) × (d.amounts ≡ start.amounts)
    passes-IsSafe s a p v t d hs ha hp hv ht hd =
        let aligned = align_outgoing-Holds rules start no_inputs no_outputs s a hs ha in
        let padded = pad_alignment_output-Holds rules start a p aligned hp in
        let added = add_value-Holds rules start p v padded hv in deduct_fee-IsSafe v t d added ht hd

    -- A transaction that the builder makes from a wallet, with no input or output yet, spends nothing but
    -- the outgoing output and outputs of the wallet without runes, inscription or lock; its inputs hold
    -- exactly the sum of its outputs and the fee for its size; and an output of the recipient starts at
    -- the outgoing sat: as many sats are in the outputs before it as in the inputs before that sat.
    pub build_transaction-IsSafe :
        (transaction : Transaction)
        → build_transaction rules start ≡ ok transaction
        → IsSafe transaction
    unfolding build_transaction
    build_transaction-IsSafe tx h =
        let (_, _, h1) = >>=-eq-ok (check_change start.change_addresses) _ h in
        let (_, _, h2) =
          >>=-eq-ok
            (if rules.is_op_return start.recipient then ok tt else check_recipient rules start) _
            h1 in
        let (s, hs, h3) = >>=-eq-ok (select_outgoing rules start) _ h2 in
        let (a, ha, h4) = >>=-eq-ok (align_outgoing rules s) _ h3 in
        let (p, hp, h5) = >>=-eq-ok (pad_alignment_output rules a) _ h4 in
        let (v, hv, h6) = >>=-eq-ok (add_value rules p) _ h5 in
        let (t, ht, h7) = >>=-eq-ok (strip_value rules v) _ h6 in
        let (d, hd, h8) = >>=-eq-ok (deduct_fee rules t) _ h7 in
        rw (build-eq d tx h8) (passes-IsSafe s a p v t d hs ha hp hv ht hd).0

    -- The assert of `build` on the fee never fails: behind the passes, from a builder with no input or
    -- output yet, what the inputs have over the outputs is the fee for the size of the transaction.
    pub run_passes-check_fee :
        (b : TransactionBuilder)
        → run_passes ≡ ok b
        → check_fee rules b (record { input = b.inputs; output = b.outputs }) ≡ ok tt
    run_passes-check_fee d h =
        let (s, hs, h1) = >>=-eq-ok (select_outgoing rules start) _ h in
        let (a, ha, h2) = >>=-eq-ok (align_outgoing rules s) _ h1 in
        let (p, hp, h3) = >>=-eq-ok (pad_alignment_output rules a) _ h2 in
        let (v, hv, h4) = >>=-eq-ok (add_value rules p) _ h3 in
        let (t, ht, hd) = >>=-eq-ok (strip_value rules v) _ h4 in
        let safe = passes-IsSafe s a p v t d hs ha hp hv ht hd in fee-check_fee d safe.0 safe.1
