-- ===== src/Prelude/Bits.antt =====
-- `bit_and` and `bit_or` at variables: the law of the lowest digit, a disjoint `or` as a sum, and a
-- check of all values below a bound.
use Prim.Native.Nat.{
  ℕ, zero, suc, ◌+◌, ◌-◌, ◌*◌, ◌/◌, ◌%◌, ◌^◌, ◌≤◌, ◌<◌, max, min, bit_and, bit_or, digits,
  bit_or-bitwise, bit_and-bitwise,
}
use mathlib.Core.Path.{◌≡◌, refl, sym, ap, ◌∙◌}
use mathlib.Core.Bool.{Bool, true, ◌&&◌}
use native.Mathlib.Omega.{arith}
use native.Mathlib.Nat.{pow-succ', suc-add, div-div-eq-div-mul, div-add-mod}

unfoldable pub all_below : ℕ → (ℕ → Bool) → Bool
all_below zero test = true
all_below (suc bound) test = test bound && all_below bound test

pub all_below_sound :
    (bound : ℕ) (test : ℕ → Bool) (at : ℕ)
    → all_below bound test ≡ true
    → at < bound
    → test at ≡ true
unfolding all_below
all_below_sound zero test at holds lt = absurd (omega arith)
all_below_sound (suc bound) test at holds lt = ground (arith, all_below_sound bound test at)

-- Any count of digits that reaches the first number gives the same result.
module _ (rest : ℕ → ℕ) (digit : ℕ → ℕ → ℕ) where
  more_digits : (a b n k : ℕ) → a ≤ n → digits rest digit (n + k) a b ≡ digits rest digit n a b
  more_digits zero b n k h = from_zero b (n + k) ∙ sym (from_zero b n)
    where
      from_zero : (b n : ℕ) → digits rest digit n 0 b ≡ rest b
      from_zero b zero = refl
      from_zero b (suc n) = refl
  more_digits (suc a) b zero k h = absurd (omega arith)
  more_digits (suc a) b (suc n) k h = rw suc-add (
      ap (λ high. high * 2 + digit (suc a % 2) (b % 2))
        (more_digits (suc a / 2) (b / 2) n k (omega arith)))

  half_digits :
      (a b : ℕ) → digits rest digit a (suc a / 2) b ≡ digits rest digit (suc a / 2) (suc a / 2) b
  half_digits a b =
      let e : a ≡ suc a / 2 + (a - suc a / 2) = omega arith in
      ap (λ n. digits rest digit n (suc a / 2) b) e
      ∙ more_digits (suc a / 2) b (suc a / 2) (a - suc a / 2) (omega arith)

pub zero-bit_or : (b : ℕ) → bit_or 0 b ≡ b
zero-bit_or b = bit_or-bitwise 0 b

pub bit_or_step : (a b : ℕ) → bit_or a b ≡ bit_or (a / 2) (b / 2) * 2 + max (a % 2) (b % 2)
bit_or_step zero b = omega (arith, zero-bit_or b, zero-bit_or (b / 2))
bit_or_step (suc a) b =
    let whole = bit_or-bitwise (suc a) b in
    let half = bit_or-bitwise (suc a / 2) (b / 2) in
    omega (arith, whole, half, half_digits (λ b. b) max a (b / 2))

half_shift : (v p : ℕ) → (v * (2 * p)) / 2 ≡ v * p
half_shift v p = omega arith

even_shift : (v p : ℕ) → (v * (2 * p)) % 2 ≡ 0
even_shift v p = omega arith

halve : (a p : ℕ) → a < 2 * p → a / 2 < p
halve a p h = omega arith

-- The digits of `v * 2 ^ k` begin where those of `a` end.
pub bit_or_disjoint : (k a v : ℕ) → a < 2 ^ k → bit_or a (v * 2 ^ k) ≡ a + v * 2 ^ k
bit_or_disjoint zero zero v h = omega (arith, zero-bit_or (v * 1))
bit_or_disjoint zero (suc a) v h = absurd (omega arith)
bit_or_disjoint (suc k) a v h = rw pow-succ' (
    omega (
      arith,
      (rw (half_shift v (2 ^ k)) at (bit_or_step a (v * (2 * 2 ^ k)))),
      bit_or_disjoint k (a / 2) v (halve a (2 ^ k) (rw pow-succ' at h)),
      even_shift v (2 ^ k),
    ))

pub bit_or_lt : (k a b : ℕ) → a < 2 ^ k → b < 2 ^ k → bit_or a b < 2 ^ k
bit_or_lt zero zero b ha hb = omega (arith, zero-bit_or b)
bit_or_lt zero (suc a) b ha hb = absurd (omega arith)
bit_or_lt (suc k) a b ha hb = rw pow-succ' (
    omega (
      arith,
      bit_or_step a b,
      bit_or_lt k (a / 2) (b / 2) (halve a (2 ^ k) (rw pow-succ' at ha))
          (halve b (2 ^ k) (rw pow-succ' at hb)),
    ))

zero-bit_and : (y : ℕ) → bit_and 0 y ≡ 0
zero-bit_and y = bit_and-bitwise 0 y

pub bit_and_step : (x y : ℕ) → bit_and x y ≡ min (x % 2) (y % 2) + 2 * bit_and (x / 2) (y / 2)
bit_and_step zero y =
    let low = zero-bit_and y in let high = zero-bit_and (y / 2) in omega (arith, low, high)
bit_and_step (suc x) y =
    let whole = bit_and-bitwise (suc x) y in
    let half = bit_and-bitwise (suc x / 2) (y / 2) in
    omega (arith, whole, half, half_digits (λ y. 0) min x (y / 2))

mod_double : (a p : ℕ) → 0 < p → a % (2 * p) ≡ a / 2 % p * 2 + a % 2
mod_double a p h = omega (
  arith,
  ap (λ (t : ℕ). p * t) (div-div-eq-div-mul a 2 p),
  div-add-mod a (2 * p),
  div-add-mod (a / 2) p,
)

mask_step : (p : ℕ) → 0 < p → ((2 * p - 1) / 2 ≡ p - 1) × ((2 * p - 1) % 2 ≡ 1)
mask_step p h = omega arith

pow_pos : (k : ℕ) → 0 < 2 ^ k
pow_pos zero = omega arith
pow_pos (suc k) = rw pow-succ' (omega (arith, pow_pos k))

bit_and-zero : (a n : ℕ) → a ≤ n → bit_and a 0 ≡ 0
bit_and-zero zero n h = zero-bit_and 0
bit_and-zero (suc a) zero h = absurd (omega arith)
bit_and-zero (suc a) (suc n) h =
    omega (arith, bit_and_step (suc a) 0, bit_and-zero (suc a / 2) n (omega arith))

-- A mask of `k` ones keeps the low `k` bits.
pub bit_and_mask : (k a : ℕ) → bit_and a (2 ^ k - 1) ≡ a % 2 ^ k
bit_and_mask zero a = omega (arith, bit_and-zero a a (omega arith))
bit_and_mask (suc k) a =
    let m = mask_step (2 ^ k) (pow_pos k) in
    rw pow-succ' (
      omega (
        arith,
        bit_and_step a (2 * 2 ^ k - 1),
        ap (bit_and (a / 2)) m.0,
        m.1,
        bit_and_mask k (a / 2),
        mod_double a (2 ^ k) (pow_pos k),
      ))
