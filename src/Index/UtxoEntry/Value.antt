-- ===== src/Index/UtxoEntry/Value.antt =====
-- The value of an entry is the sum of the sizes of its ranges.
use lord.Prelude.{
  ℕ, zero, suc, ◌+◌, ◌-◌, ◌%◌, ◌^◌, ◌≤◌, ◌<◌, ◌≡◌, refl, ◌∙◌, Option, List, [], ◌∷◌, ◌++◌, length,
  take, drop, arith, length-append,
}
use lord.Index.SatRange.{SatRange, store}
use lord.Index.SatRange.RoundTrip.{length-store, load-store}
use lord.Index.UtxoEntry.{ranges, sum_ranges, total_value}

abbrev pub size : SatRange → ℕ
size r = r.1 - r.0

abbrev pub total_size : List SatRange → ℕ
total_size [] = 0
total_size (r ∷ rs) = size r + total_size rs

-- A range that 11 bytes can hold.
abbrev pub IsStorable : SatRange → Type 0
IsStorable r = (r.0 ≤ r.1) × (r.1 < 2 ^ 51) × (r.1 - r.0 < 2 ^ 37)

abbrev pub AllStorable : List SatRange → Type 0
AllStorable [] = Unit
AllStorable (r ∷ rs) = IsStorable r × AllStorable rs

-- The bytes of several ranges, one after another.
unfoldable pub store_all : List SatRange → List ℕ
store_all [] = []
store_all (r ∷ rs) = store r ++ store_all rs

pub take-store : (r : SatRange) (rest : List ℕ) → take 11 (store r ++ rest) ≡ store r
unfolding store
take-store r rest = refl

pub drop-store : (r : SatRange) (rest : List ℕ) → drop 11 (store r ++ rest) ≡ rest
unfolding store
drop-store r rest = refl

pub not_short : (r : SatRange) (rest : List ℕ) → 11 ≤ length (store r ++ rest)
not_short r rest = omega (arith, length-append (store r) rest, length-store r)

size_step :
    (a b acc s : ℕ)
    → IsStorable (a, b)
    → acc + (b - a + s) < 2 ^ 64
    → (acc + (b + 2 ^ 64 - a) % 2 ^ 64) % 2 ^ 64 ≡ acc + (b - a)
size_step a b acc s h k = omega arith

sum_ranges-store_all :
    (rs : List SatRange) (fuel acc : ℕ)
    → AllStorable rs
    → length rs ≤ fuel
    → acc + total_size rs < 2 ^ 64
    → sum_ranges fuel (store_all rs) acc ≡ acc + total_size rs
unfolding sum_ranges store_all
sum_ranges-store_all [] zero acc h hf hs = omega arith
sum_ranges-store_all [] (suc fuel) acc h hf hs = omega arith
sum_ranges-store_all (r ∷ rs) zero acc h hf hs = absurd (omega arith)
sum_ranges-store_all ((a, b) ∷ rs) (suc fuel) acc h hf hs =
    rw
      (
        take-store (a, b) (store_all rs),
        drop-store (a, b) (store_all rs),
        load-store a b h.0.0 (omega arith) h.0.2,
      )
      (rw (size_step a b acc (total_size rs) h.0 hs) (
        ground (
          arith,
          not_short (a, b) (store_all rs),
          sum_ranges-store_all rs fuel (acc + (b - a)) h.1 (omega arith) (omega arith),
        )))

length-store_all : (rs : List SatRange) → length rs ≤ length (store_all rs)
unfolding store_all
length-store_all [] = omega arith
length-store_all (r ∷ rs) =
    omega (arith, length-append (store r) (store_all rs), length-store r, length-store_all rs)

-- An entry that holds storable ranges, with or without a script, has the sum of their sizes for its value, if that is a `u64`.
pub total_value-store_all :
    (rs : List SatRange) (script : Option (List ℕ))
    → AllStorable rs
    → total_size rs < 2 ^ 64
    → total_value (record { sats = ranges (store_all rs); script_pubkey = script }) ≡ total_size rs
unfolding total_value
total_value-store_all rs script h hs =
    sum_ranges-store_all rs (length (store_all rs)) 0 h (length-store_all rs) (omega arith)
    ∙ omega arith
