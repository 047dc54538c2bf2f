-- ===== src/Index/Updater.antt =====
-- `index_transaction_sats` of src/index/updater.rs: the sat ranges of a transaction's inputs go to
-- its outputs in order, and what is left over goes to the fee or is lost. The position of an output is
-- taken to fit a `u32`; a failure of the database is left out.
pub mod Chunks
pub mod Sizes
pub mod Sats
pub mod Fill
pub mod Conserve
use mathlib.Core.List.{flatten}
use lord.Prelude.{
  ℕ, zero, suc, ◌+◌, ◌-◌, ◌%◌, ◌^◌, Option, none, some, List, [], ◌∷◌, ◌++◌, length, take, drop,
  ltb, ◌==◌, if◌then◌else◌,
}
use lord.Ordinals.Sat.{is_common}
use lord.Index.SatRange.{SatRange, load, store}
use lord.Index.UtxoEntry.{Index, UtxoEntryBuf, push_sat_ranges}

-- A run stops at a panic; `stuck` is no state of the code, the fuel ran out.
pub data Run {ℓ} (A : Type ℓ) : Type ℓ where
  done : A → Run A
  panic stuck : Run A

infixl 5 ◌>>=◌
abbrev pub ◌>>=◌ {ℓ κ} : {A : Type ℓ} {B : Type κ} → Run A → (A → Run B) → Run B
done a >>= f = f a
panic >>= f = panic
stuck >>= f = stuck

-- A put into `sat_to_satpoint`: the sat, the output's position and the offset in it.
abbrev pub SatPointPut : Type 0
SatPointPut = ℕ × ℕ × ℕ

-- The variables of the loops. `chunks` is what `input_sat_ranges_iter` has not given yet, in
-- pieces of 11 bytes; `sat_to_satpoint` lists the puts, the last one first.
pub record Flow : Type 0 where
  pub pending_input_sat_range : Option SatRange
  pub chunks : List (List ℕ)
  pub sats : List ℕ
  pub sat_to_satpoint : List SatPointPut
  pub sat_ranges_since_flush : ℕ
  pub sat_ranges_written : ℕ
  pub outputs_traversed : ℕ

-- The pending range, or the next chunk.
unfoldable pub next_chunk : List (List ℕ) → Flow → Option (SatRange × Flow)
next_chunk [] s = none
next_chunk (c ∷ cs) s = some (load c, record s { chunks = cs })

unfoldable pub next_range : Option SatRange → Flow → Option (SatRange × Flow)
unfolding next_chunk
next_range (some r) s = some (r, record s { pending_input_sat_range = none })
next_range none s = next_chunk s.chunks s

unfoldable pub index_sat : ℕ → ℕ → ℕ → SatRange → Flow → Flow
index_sat vout output_value remaining range s = if is_common range.0 then s else record s {
  sat_to_satpoint = (range.0, vout, output_value - remaining) ∷ s.sat_to_satpoint;
}

-- The body of the loop after the range is taken: the new `remaining`, and the state.
unfoldable pub assign : ℕ → SatRange → Flow → ℕ × Flow
assign remaining range s =
    let count = (range.1 + 2 ^ 64 - range.0) % 2 ^ 64 in
    let middle = (range.0 + remaining) % 2 ^ 64 in
    let split = record s {
      pending_input_sat_range = some (middle, range.1);
      sats = s.sats ++ store (range.0, middle);
      sat_ranges_since_flush = s.sat_ranges_since_flush + 1;
      sat_ranges_written = s.sat_ranges_written + 1;
    } in
    let whole = record s {
      sats = s.sats ++ store range;
      sat_ranges_written = s.sat_ranges_written + 1;
    } in
    if ltb remaining count
    then (remaining - (middle + 2 ^ 64 - range.0) % 2 ^ 64, split)
    else (remaining - count, whole)

-- `while remaining > 0`
unfoldable pub fill : ℕ → ℕ → ℕ → ℕ → Flow → Run Flow
fill zero vout output_value remaining s = if remaining == 0 then done s else stuck
fill (suc fuel) vout output_value remaining s =
    let round : Run Flow = (elim (next_range s.pending_input_sat_range s) [
      | none ↦ panic
      | some (range, s') ↦
          (let r = assign remaining range (index_sat vout output_value remaining range s') in
            fill fuel vout output_value r.0 r.1)
    ]) in
    if remaining == 0 then done s else round

abbrev pub or_panic {ℓ} : {A : Type ℓ} → Option A → Run A
or_panic none = panic
or_panic (some a) = done a

-- The loop over the outputs, each a value with its buffer. `fuel` serves each `while`.
unfoldable pub index_outputs :
    ℕ → ℕ → List (ℕ × UtxoEntryBuf) → Index → Flow → Run (List UtxoEntryBuf × Flow)
index_outputs fuel vout [] index s = done ([], s)
index_outputs fuel vout ((value, buf) ∷ outputs) index s = do
  filled ← fill fuel vout value value s
  buf' ← or_panic (push_sat_ranges filled.sats index buf)
  (bufs, s') ←
      index_outputs fuel (vout + 1) outputs index
        (record filled { sats = []; outputs_traversed = filled.outputs_traversed + 1 })
  done (buf' ∷ bufs, s')

-- `chunks_exact(11)`; `fuel` bounds the count of chunks.
unfoldable pub chunks_exact : ℕ → List ℕ → List (List ℕ)
chunks_exact zero bytes = []
chunks_exact (suc fuel) bytes =
    let rest = take 11 bytes ∷ chunks_exact fuel (drop 11 bytes) in
    if ltb (length bytes) 11 then [] else rest

unfoldable pub all_chunks : List (List ℕ) → List (List ℕ)
all_chunks [] = []
all_chunks (slice ∷ slices) = chunks_exact (length slice) slice ++ all_chunks slices

unfoldable pub leftover : Option SatRange → List (List ℕ) → List ℕ
leftover (some range) chunks = store range ++ flatten chunks
leftover none chunks = flatten chunks

-- What a call changes: the buffers, the leftover ranges, and the rest of the state.
unfoldable pub index_transaction_sats :
    Index
    → List (ℕ × UtxoEntryBuf)
    → List (List ℕ)
    → List ℕ
    → Flow
    → Run (List UtxoEntryBuf × List ℕ × Flow)
index_transaction_sats index outputs input_sat_ranges leftover_sat_ranges before = do
  let chunks = all_chunks input_sat_ranges
  let start = record before { pending_input_sat_range = none; chunks = chunks; sats = [] }
  (bufs, s) ← index_outputs (length chunks) 0 outputs index start
  done (bufs, leftover_sat_ranges ++ leftover s.pending_input_sat_range s.chunks, s)
