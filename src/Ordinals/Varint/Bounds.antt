-- ===== src/Ordinals/Varint/Bounds.antt =====
-- What `decode` returns is in range, and it reads no more than there is.
use lord.Prelude.{
  ℕ, ◌+◌, ◌*◌, ◌%◌, ◌^◌, ◌≤◌, ◌<◌, ◌≡◌, List, [], ◌∷◌, bit_and, bit_or, length, arith,
}
use lord.Prelude.Bits.{bit_or_lt}
use lord.Ordinals.Varint.{ok, decode_loop, decode}
use lord.Ordinals.Varint.RoundTrip.{decode_eq_loop}

next_lt : (i n v : ℕ) → n < 2 ^ 128 → bit_or n (v * 2 ^ (7 * i) % 2 ^ 128) < 2 ^ 128
next_lt i n v h = bit_or_lt 128 n _ h (omega arith)

-- At position `i` the number so far stays below `2 ^ 128`, and the bytes taken are counted.
decode_loop_bounds :
    (buffer : List ℕ) (i n m len : ℕ)
    → n < 2 ^ 128
    → decode_loop buffer i n ≡ ok (m, len)
    → (m < 2 ^ 128) × (i < len) × (len ≤ 19) × (len ≤ i + length buffer)
unfolding decode_loop
decode_loop_bounds [] i n m len hn h = absurd (cc)
decode_loop_bounds (b ∷ rest) i n m len hn h = ground (
  arith,
  next_lt i n (bit_and b 0x7f) hn,
  decode_loop_bounds rest (i + 1) (bit_or n (bit_and b 0x7f * 2 ^ (7 * i) % 2 ^ 128)) m len,
)

-- A number that `decode` returns is a `u128`, and it took one byte at least, 19 at most, and no
-- more than the buffer holds.
pub decode_bounds :
    (buffer : List ℕ) (m len : ℕ)
    → decode buffer ≡ ok (m, len)
    → (m < 2 ^ 128) × (0 < len) × (len ≤ 19) × (len ≤ length buffer)
decode_bounds buffer m len h =
    omega (arith, decode_loop_bounds buffer 0 0 m len (omega arith) (rw decode_eq_loop at h))
