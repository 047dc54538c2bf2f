-- ===== src/Index/Updater/Conserve.antt =====
-- The outputs of a transaction take their values from the input ranges in order, and nothing is lost.
use lord.Prelude.{
  ℕ, ◌+◌, ◌≤◌, ◌≡◌, refl, ap, ◌∙◌, true, none, some, List, [], ◌∷◌, ◌++◌, map, length, arith,
  length-map,
}
use mathlib.Core.List.{append_assoc, flatten}
use lord.Index.SatRange.{SatRange, load}
use lord.Index.UtxoEntry.{Index, UtxoEntryBuf, new, push_sat_ranges}
use lord.Index.UtxoEntry.Value.{total_size, AllStorable, store_all}
use lord.Index.Updater.{done, Flow, fill, index_outputs, all_chunks, index_transaction_sats}
use lord.Index.Updater.Sats.{expand_all, expand_all-append, source, AllStored}
use lord.Index.Updater.Fill.{fill_lem}
use lord.Index.Updater.Sizes.{total_split, with_ranges, push_accepts, push_filled, flatten-cons}
use lord.Index.Updater.Chunks.{
  all_chunks-store_all, map-load-store, AllStored-map-store, leftover-source,
}

-- The values that the outputs ask for.
abbrev pub output_total : List (ℕ × UtxoEntryBuf) → ℕ
output_total [] = 0
output_total ((value, buf) ∷ outputs) = value + output_total outputs

-- No output has anything in its buffer yet.
abbrev pub AllNew : List (ℕ × UtxoEntryBuf) → Type 0
AllNew [] = Unit
AllNew ((value, buf) ∷ outputs) = (buf ≡ new) × AllNew outputs

-- What an output received: ranges worth its value, in its buffer.
abbrev pub Received :
    Index → List (ℕ × UtxoEntryBuf) → List UtxoEntryBuf → List (List SatRange) → Type 0
Received index [] [] [] = Unit
Received index ((value, buf) ∷ outputs) (buf' ∷ bufs) (got ∷ gots) =
    (total_size got ≡ value)
    × AllStorable got
    × (push_sat_ranges (store_all got) index buf ≡ some buf')
    × Received index outputs bufs gots
Received index _ _ _ = ⊥

-- What the outputs took, and the state they left.
pub record Assigned (index : Index) (outputs : List (ℕ × UtxoEntryBuf)) (bufs : List UtxoEntryBuf)
    (s s' : Flow) : Type 0 where
  pub gots : List (List SatRange)
  pub received : Received index outputs bufs gots
  pub order : expand_all (flatten gots) ++ expand_all (source s') ≡ expand_all (source s)
  pub left_storable : AllStorable (source s')
  pub stored : AllStored s.chunks → AllStored s'.chunks

outputs_step :
    (fuel vout value : ℕ) (buf buf' : UtxoEntryBuf) (outputs : List (ℕ × UtxoEntryBuf))
    (index : Index) (s filled : Flow)
    → fill fuel vout value value s ≡ done filled
    → push_sat_ranges filled.sats index buf ≡ some buf'
    → (bufs : List UtxoEntryBuf) (s' : Flow)
    → index_outputs fuel
        (vout + 1)
        outputs
        index
        (record filled { sats = []; outputs_traversed = filled.outputs_traversed + 1 })
      ≡ done (bufs, s')
    → index_outputs fuel vout ((value, buf) ∷ outputs) index s ≡ done (buf' ∷ bufs, s')
unfolding index_outputs
outputs_step fuel vout value buf buf' outputs index s filled e p bufs s' r = rw e (rw p (rw r))

pub index_outputs_lem :
    (outputs : List (ℕ × UtxoEntryBuf)) (fuel vout : ℕ) (index : Index) (s : Flow)
    → index.index_sats ≡ true
    → AllNew outputs
    → s.sats ≡ []
    → AllStorable (source s)
    → output_total outputs ≤ total_size (source s)
    → length (source s) ≤ fuel
    → (bufs : List UtxoEntryBuf) × (s' : Flow) × (index_outputs fuel vout outputs index s
        ≡ done (bufs, s'))
      × Assigned index outputs bufs s s'
index_outputs_lem [] fuel vout index s on fresh none_yet ok fits fueled = (
  [],
  s,
  unfold index_outputs in refl,
  record {
    gots = [];
    received = tt;
    order = unfold flatten expand_all in refl;
    left_storable = ok;
    stored = λ h. h;
  },
)
index_outputs_lem ((value, buf) ∷ outputs) fuel vout index s on fresh none_yet ok fits fueled =
    let (filled, run, f) =
      fill_lem fuel vout value value s (source s) refl ok (omega arith) fueled in
    let next : Flow = record filled {
      sats = [];
      outputs_traversed = filled.outputs_traversed + 1;
    } in
    let split = total_split f.got (source filled) (source s) f.order in
    let push : push_sat_ranges filled.sats index buf ≡ some (with_ranges index f.got) =
      push_filled index buf s.sats filled.sats f.got on fresh.0 none_yet f.written in
    let (bufs, s', more, a) =
      index_outputs_lem outputs fuel (vout + 1) index next on fresh.1 refl f.left_storable
        (omega (arith, f.exact)) (omega (arith, f.fewer)) in
    (
      with_ranges index f.got ∷ bufs,
      s',
      outputs_step fuel vout value buf (with_ranges index f.got) outputs index s filled run push
          bufs s' more,
      record {
        gots = f.got ∷ a.gots;
        received = (f.exact, f.storable, rw fresh.0 (push_accepts index f.got on), a.received);
        order =
            rw
              (
                flatten-cons f.got a.gots,
                expand_all-append f.got (flatten a.gots),
                append_assoc,
                a.order,
              )
              f.order;
        left_storable = a.left_storable;
        stored = λ h. a.stored (f.stored h);
      },
    )

-- What a transaction did with its sats: each output received its value, and the outputs and the
-- leftover ranges hold the inputs' sats in order.
pub record Conserved (index : Index) (outputs : List (ℕ × UtxoEntryBuf)) (inputs : List SatRange)
    (bufs : List UtxoEntryBuf) (left : List SatRange) : Type 0 where
  pub gots : List (List SatRange)
  pub received : Received index outputs bufs gots
  pub left_storable : AllStorable left
  pub order : expand_all (flatten gots) ++ expand_all left ≡ expand_all inputs

module _ (index : Index) (inputs : List (List SatRange)) (before : Flow) where
  abbrev first : Flow
  first = record before {
    pending_input_sat_range = none;
    chunks = all_chunks (map store_all inputs);
    sats = [];
  }

  source-first : AllStorable (flatten inputs) → source first ≡ flatten inputs
  source-first ok = rw (all_chunks-store_all inputs) (map-load-store (flatten inputs) ok)

  stored_first : AllStorable (flatten inputs) → AllStored first.chunks
  stored_first ok = rw (all_chunks-store_all inputs) (AllStored-map-store (flatten inputs) ok)

-- With sats indexed, fresh buffers for the outputs and input ranges that 11 bytes can hold, a
-- transaction whose inputs are worth its outputs or more runs to the end: no panic, and the fuel is
-- enough. Each output's buffer receives ranges worth exactly its value. The sats of the outputs in
-- order, followed by those that the call appends to the leftover ranges, are the inputs' sats in
-- order.
pub index_transaction_sats_conserves :
    (index : Index) (outputs : List (ℕ × UtxoEntryBuf)) (inputs : List (List SatRange))
    (leftover_sat_ranges : List ℕ) (before : Flow)
    → index.index_sats ≡ true
    → AllNew outputs
    → AllStorable (flatten inputs)
    → output_total outputs ≤ total_size (flatten inputs)
    → (bufs : List UtxoEntryBuf) × (left : List SatRange) × (after : Flow) × (index_transaction_sats
          index outputs
          (map store_all inputs)
          leftover_sat_ranges
          before
        ≡ done (bufs, leftover_sat_ranges ++ store_all left, after))
      × Conserved index outputs (flatten inputs) bufs left
unfolding index_transaction_sats
index_transaction_sats_conserves index outputs inputs leftover_sat_ranges before on fresh ok fits =
    let s = first index inputs before in
    let e = source-first index inputs before ok in
    let fueled : length (source s) ≤ length s.chunks = omega (arith, length-map s.chunks load) in
    let (bufs, s', run, a) =
      index_outputs_lem outputs (length s.chunks) 0 index s on fresh refl (rw e ok) (rw e fits)
        fueled in
    let rest =
      leftover-source s'.pending_input_sat_range s'.chunks
        (a.stored (stored_first index inputs before ok)) in
    (
      bufs,
      source s',
      s',
      rw run (rw rest refl),
      record {
        gots = a.gots;
        received = a.received;
        left_storable = a.left_storable;
        order = a.order ∙ ap expand_all e;
      },
    )
