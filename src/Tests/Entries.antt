-- ===== src/Tests/Entries.antt =====
-- Entries of the index, and the sats of a transaction, at concrete values.
use lord.Prelude.{ℕ, ◌≡◌, refl, true, false, none, some, List, [], ◌∷◌, ◌++◌, map, arith}
use mathlib.Core.List.{flatten}
use lord.Prelude.Monad.{◌>>=◌}
use lord.Index.SatRange.{load, store}
use lord.Index.SatRange.RoundTrip.{load-store}
use lord.Index.UtxoEntry.{
  Index, UtxoEntryBuf, ranges, value, new, push_sat_ranges, push_script_pubkey, push_value, as_ref,
  parse, total_value,
}
use lord.Index.UtxoEntry.RoundTrip.{parse-push_sat_ranges, parse-push_value}
use lord.Index.UtxoEntry.Value.{store_all, total_value-store_all}
use lord.Index.Updater.{Flow, done, index_transaction_sats}
use lord.Index.Updater.Conserve.{Conserved, index_transaction_sats_conserves}

abbrev full : Index
full = record { index_sats = true; index_addresses = true; sats = true }

abbrev plain : Index
plain = record { index_sats = false; index_addresses = true; sats = true }

-- A range of 10 sats.
abbrev ten_bytes : List ℕ
ten_bytes = 5 ∷ 0 ∷ 0 ∷ 0 ∷ 0 ∷ 0 ∷ 80 ∷ 0 ∷ 0 ∷ 0 ∷ 0 ∷ []

load-store_example : load (store (5, 15)) ≡ (5, 15)
load-store_example = load-store 5 15 (omega arith) (omega arith) (omega arith)

parse-push_sat_ranges_example :
    (push_sat_ranges ten_bytes full new
      >>= push_script_pubkey (81 ∷ []) full
      >>= as_ref
      >>= parse full)
    ≡ some (record { sats = ranges ten_bytes; script_pubkey = some (81 ∷ []) })
parse-push_sat_ranges_example =
    parse-push_sat_ranges full 1 ten_bytes (81 ∷ []) refl refl refl (omega arith) (omega arith)

parse-push_value_example :
    (plain.index_addresses ≡ true
      → (push_value 546 plain new >>= push_script_pubkey (81 ∷ []) plain >>= as_ref >>= parse plain)
        ≡ some (record { sats = value 546; script_pubkey = some (81 ∷ []) }))
    × (plain.index_addresses ≡ false
        → (push_value 546 plain new >>= as_ref >>= parse plain)
          ≡ some (record { sats = value 546; script_pubkey = none }))
parse-push_value_example = parse-push_value plain 546 (81 ∷ []) refl (omega arith) (omega arith)

total_value-store_all_example :
    total_value
      (record { sats = ranges (store_all ((5, 15) ∷ (40, 42) ∷ [])); script_pubkey = none })
    ≡ 12
total_value-store_all_example =
    total_value-store_all ((5, 15) ∷ (40, 42) ∷ []) none (omega arith) (omega arith)

abbrev idle : Flow
idle = record {
  pending_input_sat_range = none;
  chunks = [];
  sats = [];
  sat_to_satpoint = [];
  sat_ranges_since_flush = 0;
  sat_ranges_written = 0;
  outputs_traversed = 0;
}

-- Two inputs of 10 and 2 sats for outputs of 7 and 4, with one sat left.
index_transaction_sats_conserves_example :
    (bufs : List UtxoEntryBuf) × (left : List (ℕ × ℕ)) × (after : Flow) × (index_transaction_sats
        full
        ((7, new) ∷ (4, new) ∷ [])
        (map store_all (((5, 15) ∷ []) ∷ ((40, 42) ∷ []) ∷ []))
        []
        idle
      ≡ done (bufs, [] ++ store_all left, after))
    × Conserved full
        ((7, new) ∷ (4, new) ∷ [])
        (flatten (((5, 15) ∷ []) ∷ ((40, 42) ∷ []) ∷ []))
        bufs
        left
unfolding flatten
index_transaction_sats_conserves_example =
    index_transaction_sats_conserves full ((7, new) ∷ (4, new) ∷ [])
      (((5, 15) ∷ []) ∷ ((40, 42) ∷ []) ∷ []) [] idle refl (refl, (refl, tt)) (omega arith)
      (omega arith)
