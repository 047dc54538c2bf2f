-- ===== src/Ordinals/Varint.antt =====
-- crates/ordinals/src/varint.rs: LEB128 coding of `u128`. A byte slice is a list of numbers.
pub mod RoundTrip
pub mod Bounds
use mathlib.Core.Logic.{dite}
use mathlib.Core.WellFounded.{Acc}
use lord.Prelude.{
  ℕ, ◌+◌, ◌*◌, ◌/◌, ◌%◌, ◌^◌, ◌<◌, List, [], ◌∷◌, ◌++◌, bit_and, bit_or, dec_lt, ltb, ◌==◌, arith,
  if◌then◌else◌,
}
use lord.Prelude.Order.{lt_wf}

pub data Error : Type 0 where
  overlong : Error

pub data Result {ℓ} (A : Type ℓ) : Type ℓ where
  ok : A → Result A
  err : Error → Result A

pub shift_lt : (n : ℕ) → 0 < n / 2 ^ 7 → n / 2 ^ 7 < n
shift_lt n h = omega arith

-- `n.to_le_bytes()[0]` is `n % 256`.
encode_loop : (n : ℕ) → Acc ◌<◌ n → List ℕ → List ℕ
encode_loop n (Acc.intro _ below) v =
    dite (dec_lt 0 (n / 2 ^ 7))
      (λ h. encode_loop (n / 2 ^ 7) (below _ (shift_lt n h)) (v ++ bit_or (n % 256) 0x80 ∷ []))
      (λ _. v ++ (n % 256) ∷ [])

unfoldable pub encode_to_vec : ℕ → List ℕ → List ℕ
unfolding encode_loop lt_wf dec_lt
encode_to_vec n v = encode_loop n (lt_wf.apply n) v

-- The loop of `decode` at position `i`. `value << (7 * i)` keeps the low 128 bits.
unfoldable pub decode_loop : List ℕ → ℕ → ℕ → Result (ℕ × ℕ)
decode_loop [] i n = err overlong
decode_loop (byte ∷ rest) i n =
    let value = bit_and byte 0x7f in
    let n' = bit_or n (value * 2 ^ (7 * i) % 2 ^ 128) in
    let more = decode_loop rest (i + 1) n' in
    if ltb 18 i then err overlong else if bit_and byte 0x80 == 0 then ok (n', i + 1) else more

unfoldable pub decode : List ℕ → Result (ℕ × ℕ)
unfolding decode_loop
decode buffer = decode_loop buffer 0 0
