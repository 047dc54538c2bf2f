-- ===== src/Index/SatRange.antt =====
-- `impl Entry for SatRange` of src/index/entry.rs: a half-open range of sats in 11 bytes.
pub mod RoundTrip
use lord.Prelude.{
  ℕ, zero, suc, ◌+◌, ◌-◌, ◌*◌, ◌/◌, ◌%◌, ◌^◌, List, [], ◌∷◌, bit_and, bit_or, take, drop,
}

-- `(u64, u64)`
abbrev pub SatRange : Type 0
SatRange = ℕ × ℕ

-- `to_le_bytes()[0..k]`
unfoldable pub le_bytes : ℕ → ℕ → List ℕ
le_bytes zero n = []
le_bytes (suc k) n = n % 256 ∷ le_bytes k (n / 256)

-- `from_le_bytes`; zeros at the high end are left out.
unfoldable pub from_le_bytes : List ℕ → ℕ
from_le_bytes [] = 0
from_le_bytes (b ∷ bs) = b + 256 * from_le_bytes bs

-- The argument has 11 bytes.
unfoldable pub load : List ℕ → SatRange
unfolding from_le_bytes
load v =
    let raw_base = from_le_bytes (take 7 v) in
    let base = bit_and raw_base (2 ^ 51 - 1) in
    let raw_delta = from_le_bytes (take 5 (drop 6 v)) in
    let delta = raw_delta / 2 ^ 3 in (base, (base + delta) % 2 ^ 64)

-- The subtraction of two `u64` wraps; the shift of a `u64` by 51 fits a `u128`.
unfoldable pub store : SatRange → List ℕ
unfolding le_bytes
store r =
    let base = r.0 in
    let delta = (r.1 + 2 ^ 64 - r.0) % 2 ^ 64 in
    let n = bit_or base (delta * 2 ^ 51) in le_bytes 11 n
