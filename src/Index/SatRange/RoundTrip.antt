-- ===== src/Index/SatRange/RoundTrip.antt =====
-- A stored range of sats is loaded again.
use lord.Prelude.{
  ℕ, zero, suc, ◌+◌, ◌-◌, ◌*◌, ◌/◌, ◌%◌, ◌^◌, ◌≤◌, ◌<◌, ◌≡◌, refl, ap, bit_and, length, arith,
}
use lord.Prelude.Bits.{bit_or_disjoint, bit_and_mask}
use lord.Index.SatRange.{SatRange, le_bytes, from_le_bytes, load, store}

pub length-le_bytes : (k n : ℕ) → length (le_bytes k n) ≡ k
unfolding le_bytes
length-le_bytes zero n = refl
length-le_bytes (suc k) n = ap suc (length-le_bytes k (n / 256))

pub length-store : (r : SatRange) → length (store r) ≡ 11
unfolding store
length-store r = refl

seven_bytes : (n : ℕ) → from_le_bytes (le_bytes 7 n) ≡ n % 2 ^ 56
unfolding from_le_bytes le_bytes
seven_bytes n = omega arith

five_bytes : (n : ℕ) → from_le_bytes (le_bytes 5 n) ≡ n % 2 ^ 40
unfolding from_le_bytes le_bytes
five_bytes n = omega arith

abbrev skip_six : ℕ → ℕ
skip_six n = n / 256 / 256 / 256 / 256 / 256 / 256

load_bytes :
    (n : ℕ)
    → load (le_bytes 11 n) ≡ (
      bit_and (n % 2 ^ 56) (2 ^ 51 - 1),
      (bit_and (n % 2 ^ 56) (2 ^ 51 - 1) + skip_six n % 2 ^ 40 / 2 ^ 3) % 2 ^ 64,
    )
unfolding load le_bytes
load_bytes n =
    rw (← seven_bytes n, ← five_bytes (skip_six n)) (unfold from_le_bytes le_bytes in refl)

base_part : (b d : ℕ) → b < 2 ^ 51 → (b + d * 2 ^ 51) % 2 ^ 56 % 2 ^ 51 ≡ b
base_part b d h = omega arith

delta_part : (b d : ℕ) → b < 2 ^ 51 → d < 2 ^ 37 → skip_six (b + d * 2 ^ 51) % 2 ^ 40 / 2 ^ 3 ≡ d
delta_part b d h k = omega arith

stored_delta : (a b : ℕ) → a ≤ b → a < 2 ^ 51 → b - a < 2 ^ 37 → (b + 2 ^ 64 - a) % 2 ^ 64 ≡ b - a
stored_delta a b h k d = omega arith

store_eq_bytes :
    (a b : ℕ)
    → a ≤ b
    → a < 2 ^ 51
    → b - a < 2 ^ 37
    → store (a, b) ≡ le_bytes 11 (a + (b - a) * 2 ^ 51)
unfolding store
store_eq_bytes a b h k d =
    ap (le_bytes 11) (rw (stored_delta a b h k d) (bit_or_disjoint 51 a (b - a) k))

loaded_base : (b d : ℕ) → b < 2 ^ 51 → bit_and ((b + d * 2 ^ 51) % 2 ^ 56) (2 ^ 51 - 1) ≡ b
loaded_base b d h = omega (arith, bit_and_mask 51 ((b + d * 2 ^ 51) % 2 ^ 56), base_part b d h)

-- A range that ends no earlier than it begins, begins below 2 ^ 51 and is shorter than 2 ^ 37 is
-- loaded as it was stored.
pub load-store : (a b : ℕ) → a ≤ b → a < 2 ^ 51 → b - a < 2 ^ 37 → load (store (a, b)) ≡ (a, b)
load-store a b h k d =
    rw (store_eq_bytes a b h k d, load_bytes (a + (b - a) * 2 ^ 51))
      (rw (loaded_base a (b - a) k, delta_part a (b - a) k d)
        (ap (λ (t : ℕ). (a, t)) (omega arith)))
