-- ===== src/Index/UtxoEntry.antt =====
-- src/index/utxo_entry.rs: what the index keeps of an output, as bytes. `none` is a panic: an assert,
-- an `unwrap` or a slice out of range.
pub mod RoundTrip
pub mod Value
use lord.Prelude.{
  ℕ, zero, suc, ◌+◌, ◌-◌, ◌*◌, ◌/◌, ◌%◌, ◌^◌, ◌≡◌, Bool, true, false, not, ◌&&◌, ◌||◌, Option, none,
  some, List, [], ◌∷◌, ◌++◌, length, take, drop, leb, ltb, ◌==◌, if◌then◌else◌,
}
use lord.Prelude.Monad.{◌>>=◌, ◌>>◌, assert}
use lord.Ordinals.Varint.{Result, encode_to_vec, decode}
use lord.Index.SatRange.{SatRange, load}

-- The settings of `Index` that entries depend on; `sats` is the cargo feature.
pub record Index : Type 0 where
  pub index_sats : Bool
  pub index_addresses : Bool
  pub sats : Bool

pub data Sats : Type 0 where
  ranges : List ℕ → Sats
  value : ℕ → Sats

pub record ParsedUtxoEntry : Type 0 where
  pub sats : Sats
  pub script_pubkey : Option (List ℕ)

-- `&bytes[offset..offset + len]`
unfoldable pub slice : List ℕ → ℕ → ℕ → Option (List ℕ)
slice bytes offset len =
    if leb (offset + len) (length bytes) then some (take len (drop offset bytes)) else none

-- `&bytes[offset..]`
unfoldable pub slice_from : List ℕ → ℕ → Option (List ℕ)
slice_from bytes offset = if leb offset (length bytes) then some (drop offset bytes) else none

unfoldable pub unwrap : Result (ℕ × ℕ) → Option (ℕ × ℕ)
unwrap (Result.ok r) = some r
unwrap (Result.err e) = none

-- `try_into().unwrap()` from `u128` to a type of 64 bits
unfoldable pub to_u64 : ℕ → Option ℕ
to_u64 n = if ltb n (2 ^ 64) then some n else none

unfoldable pub parse_sats : Index → List ℕ → Option (Sats × ℕ)
parse_sats index bytes =
    if index.index_sats
    then (do
      (n, varint_len) ← unwrap (decode bytes)
      num_sat_ranges ← to_u64 n
      let sat_ranges_len = num_sat_ranges * 11 % 2 ^ 64
      sat_ranges ← slice bytes varint_len sat_ranges_len
      some (ranges sat_ranges, varint_len + sat_ranges_len))
    else (do (n, varint_len) ← unwrap (decode bytes); v ← to_u64 n; some (value v, varint_len))

unfoldable pub parse_script_pubkey : Index → List ℕ → ℕ → Option (Option (List ℕ))
parse_script_pubkey index bytes offset =
    if index.index_addresses
    then (do
      rest ← slice_from bytes offset
      (n, varint_len) ← unwrap (decode rest)
      script_pubkey_len ← to_u64 n
      script_pubkey ← slice bytes (offset + varint_len) script_pubkey_len
      some (some script_pubkey))
    else some none

unfoldable pub parse : Index → List ℕ → Option ParsedUtxoEntry
parse index bytes = do
  (sats, offset) ← parse_sats index bytes
  script_pubkey ← parse_script_pubkey index bytes offset
  some (record { sats = sats; script_pubkey = script_pubkey })

-- `chunks_exact(11)`, a chunk at a time; `fuel` bounds the count of chunks.
unfoldable pub sum_ranges : ℕ → List ℕ → ℕ → ℕ
sum_ranges zero bytes acc = acc
sum_ranges (suc fuel) bytes acc =
    let r = load (take 11 bytes) in
    let rest = sum_ranges fuel (drop 11 bytes) ((acc + (r.1 + 2 ^ 64 - r.0) % 2 ^ 64) % 2 ^ 64) in
    if ltb (length bytes) 11 then acc else rest

unfoldable pub total_value : ParsedUtxoEntry → ℕ
unfolding sum_ranges
total_value entry = elim entry.sats [
  | value v ↦ v
  | ranges bytes ↦ sum_ranges (length bytes) bytes 0
]

-- The states of a buffer, which a debug build checks.
pub data State : Type 0 where
  need_sats need_script_pubkey valid : State

pub record UtxoEntryBuf : Type 0 where
  pub vec : List ℕ
  pub state : State

abbrev pub new : UtxoEntryBuf
new = record { vec = []; state = need_sats }

unfoldable pub same_state : State → State → Bool
same_state need_sats need_sats = true
same_state need_script_pubkey need_script_pubkey = true
same_state valid valid = true
same_state _ _ = false

unfoldable pub advance_state : State → State → Index → UtxoEntryBuf → Option UtxoEntryBuf
unfolding same_state
advance_state expected_state new_state index buf = do
  assert (same_state buf.state expected_state)
  let reached = same_state new_state need_script_pubkey && not index.index_addresses
  let next = if reached then valid else new_state
  some (record buf { state = next })

unfoldable pub push_value : ℕ → Index → UtxoEntryBuf → Option UtxoEntryBuf
unfolding advance_state
push_value v index buf = do
  assert (not index.index_sats || not index.sats)
  advance_state need_sats need_script_pubkey index (record buf { vec = encode_to_vec v buf.vec })

unfoldable pub push_sat_ranges : List ℕ → Index → UtxoEntryBuf → Option UtxoEntryBuf
unfolding advance_state
push_sat_ranges sat_ranges index buf = do
  assert index.index_sats
  let num_sat_ranges = length sat_ranges / 11
  assert (num_sat_ranges * 11 == length sat_ranges)
  advance_state need_sats need_script_pubkey index
      (record buf { vec = encode_to_vec num_sat_ranges buf.vec ++ sat_ranges })

unfoldable pub push_script_pubkey : List ℕ → Index → UtxoEntryBuf → Option UtxoEntryBuf
unfolding advance_state
push_script_pubkey script_pubkey index buf = do
  assert index.index_addresses
  advance_state need_script_pubkey valid index
      (record buf { vec = encode_to_vec (length script_pubkey) buf.vec ++ script_pubkey })

-- The bytes of a finished buffer.
unfoldable pub as_ref : UtxoEntryBuf → Option (List ℕ)
unfolding same_state
as_ref buf = do assert (same_state buf.state valid); some buf.vec

unfoldable pub sat_ranges : ParsedUtxoEntry → Option (List ℕ)
sat_ranges entry = elim entry.sats [ ranges bytes ↦ some bytes | value v ↦ none ]

unfoldable pub merged_sats : Index → ParsedUtxoEntry → ParsedUtxoEntry → Option UtxoEntryBuf
merged_sats index a b =
    if index.index_sats
    then (do
      a_ranges ← sat_ranges a
      b_ranges ← sat_ranges b
      push_sat_ranges (a_ranges ++ b_ranges) index new)
    else (do assert (total_value a == 0); assert (total_value b == 0); push_value 0 index new)

unfoldable pub merged_script :
    Index → ParsedUtxoEntry → ParsedUtxoEntry → UtxoEntryBuf → Option UtxoEntryBuf
merged_script index a b merged =
    if index.index_addresses
    then (do
      a_script ← a.script_pubkey
      assert (length a_script == 0)
      b_script ← b.script_pubkey
      assert (length b_script == 0)
      push_script_pubkey [] index merged)
    else some merged

-- Two entries with no script in one: the sats of both, in order.
unfoldable pub merged : List ℕ → List ℕ → Index → Option UtxoEntryBuf
merged a b index = do
  a_parsed ← parse index a
  b_parsed ← parse index b
  buf ← merged_sats index a_parsed b_parsed
  merged_script index a_parsed b_parsed buf

unfoldable pub empty : Index → Option UtxoEntryBuf
empty index = do
  buf ← if index.index_sats then push_sat_ranges [] index new else push_value 0 index new
  if index.index_addresses then push_script_pubkey [] index buf else some buf
