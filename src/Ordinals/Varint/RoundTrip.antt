-- ===== src/Ordinals/Varint/RoundTrip.antt =====
-- `decode` undoes `encode_to_vec`, and what it returns is in range.
use mathlib.Core.WellFounded.{Acc}
use lord.Prelude.{
  ℕ, zero, suc, ◌+◌, ◌*◌, ◌/◌, ◌%◌, ◌^◌, ◌≤◌, ◌<◌, ◌≡◌, refl, ap, true, List, [], ◌∷◌, ◌++◌,
  bit_and, bit_or, dec_lt, ◌==◌, ==_iff, length, arith, if◌then◌else◌,
}
use lord.Prelude.Order.{lt_wf}
use lord.Prelude.Bits.{all_below, all_below_sound, bit_or_disjoint}
use lord.Ordinals.Varint.{ok, shift_lt, encode_loop, encode_to_vec, decode_loop, decode}
use mathlib.Core.List.{append_assoc}
use mathlib.Core.Logic.{dif_pos, dif_neg}
use native.Mathlib.Bridge.{le_prop}
use native.Mathlib.Nat.{mod-eq_of_lt, pow-succ', mul-lt-mul_of_pos_right}
use native.Mathlib.Numerals.{towards_suc}

-- A byte is checked at each of its values.
low_table : all_below 256 (λ b. bit_and b 0x7f == b % 128) ≡ true
unfolding all_below
low_table = refl

flag_table : all_below 256 (λ b. bit_and (bit_or b 0x80) 0x80 == 0x80) ≡ true
unfolding all_below
flag_table = refl

flagged_table : all_below 256 (λ b. bit_and (bit_or b 0x80) 0x7f == b % 128) ≡ true
unfolding all_below
flagged_table = refl

plain_table : all_below 128 (λ b. bit_and b 0x80 == 0) ≡ true
unfolding all_below
plain_table = refl

low_bits : (b : ℕ) → b < 256 → bit_and b 0x7f ≡ b % 128
low_bits b h = (==_iff _ _).0 (all_below_sound 256 _ b low_table h)

flag_set : (b : ℕ) → b < 256 → bit_and (bit_or b 0x80) 0x80 ≡ 0x80
flag_set b h = (==_iff _ _).0 (all_below_sound 256 _ b flag_table h)

flagged_low_bits : (b : ℕ) → b < 256 → bit_and (bit_or b 0x80) 0x7f ≡ b % 128
flagged_low_bits b h = (==_iff _ _).0 (all_below_sound 256 _ b flagged_table h)

flag_clear : (b : ℕ) → b < 128 → bit_and b 0x80 ≡ 0
flag_clear b h = (==_iff _ _).0 (all_below_sound 128 _ b plain_table h)

-- One round of the loop.
encode_loop_more :
    (n : ℕ) (below : (m : ℕ) → m < n → Acc ◌<◌ m) (v : List ℕ) (h : 0 < n / 2 ^ 7)
    → encode_loop n (Acc.intro n below) v
      ≡ encode_loop (n / 2 ^ 7) (below _ (shift_lt n h)) (v ++ bit_or (n % 256) 0x80 ∷ [])
unfolding encode_loop
encode_loop_more n below v h = dif_pos (dec_lt 0 (n / 2 ^ 7)) le_prop h _ _

encode_loop_last :
    (n : ℕ) (below : (m : ℕ) → m < n → Acc ◌<◌ m) (v : List ℕ)
    → ¬ (0 < n / 2 ^ 7)
    → encode_loop n (Acc.intro n below) v ≡ v ++ (n % 256) ∷ []
unfolding encode_loop
encode_loop_last n below v h = dif_neg (dec_lt 0 (n / 2 ^ 7)) h _ _

-- What the loop pushes does not depend on what is there.
encode_loop-append :
    (n : ℕ) (w : Acc ◌<◌ n) (v : List ℕ) → encode_loop n w v ≡ v ++ encode_loop n w []
encode_loop-append n (Acc.intro _ below) v = elim (dec_lt 0 (n / 2 ^ 7)) [
  | yes h ↦
      rw (encode_loop_more n below v h, encode_loop_more n below [] h)
        (simp (
          encode_loop-append _ (below _ (shift_lt n h)) (v ++ bit_or (n % 256) 0x80 ∷ []),
          encode_loop-append _ (below _ (shift_lt n h)) (bit_or (n % 256) 0x80 ∷ []),
          append_assoc,
        ))
  | no h ↦ simp (encode_loop_last n below v h, encode_loop_last n below [] h)
]

pow_step : (k : ℕ) → 2 ^ (k + 7) ≡ 128 * 2 ^ k
pow_step k = simp towards_suc (omega arith)

shift_step : (i : ℕ) → 2 ^ (7 * (i + 1)) ≡ 128 * 2 ^ (7 * i)
shift_step i = let e : 7 * (i + 1) ≡ 7 * i + 7 = omega arith in rw e (pow_step (7 * i))

add_value :
    (i acc g : ℕ)
    → acc < 2 ^ (7 * i)
    → g * 2 ^ (7 * i) < 2 ^ 128
    → bit_or acc (g * 2 ^ (7 * i) % 2 ^ 128) ≡ acc + g * 2 ^ (7 * i)
add_value i acc g ha fits = rw (mod-eq_of_lt fits) (bit_or_disjoint (7 * i) acc g ha)

-- One byte, read at position `i`.
decode_step :
    (i acc g b : ℕ) (rest : List ℕ)
    → i ≤ 18
    → bit_and b 0x7f ≡ g
    → acc < 2 ^ (7 * i)
    → g * 2 ^ (7 * i) < 2 ^ 128
    → decode_loop (b ∷ rest) i acc ≡ (
        if bit_and b 0x80 == 0
        then ok (acc + g * 2 ^ (7 * i), i + 1)
        else decode_loop rest (i + 1) (acc + g * 2 ^ (7 * i)))
unfolding decode_loop
decode_step i acc g b rest hi hg ha fits = rw (hg, add_value i acc g ha fits) (ground arith)

decode_last :
    (i n acc : ℕ) (rest : List ℕ)
    → i ≤ 18
    → n < 128
    → acc < 2 ^ (7 * i)
    → n * 2 ^ (7 * i) < 2 ^ 128
    → decode_loop (n % 256 ∷ rest) i acc ≡ ok (acc + n * 2 ^ (7 * i), i + 1)
decode_last i n acc rest hi hn ha fits =
    let e : n % 256 ≡ n = omega arith in
    rw e (
      rw (decode_step i acc n n rest hi (omega (arith, low_bits n (omega arith))) ha fits)
        (rw (flag_clear n hn)))

decode_more :
    (i n acc : ℕ) (rest : List ℕ)
    → i ≤ 18
    → acc < 2 ^ (7 * i)
    → n % 128 * 2 ^ (7 * i) < 2 ^ 128
    → decode_loop (bit_or (n % 256) 0x80 ∷ rest) i acc
      ≡ decode_loop rest (i + 1) (acc + n % 128 * 2 ^ (7 * i))
decode_more i n acc rest hi ha fits =
    rw
      (decode_step i acc (n % 128) (bit_or (n % 256) 0x80) rest hi
        (omega (arith, flagged_low_bits (n % 256) (omega arith))) ha fits)
      (rw (flag_set (n % 256) (omega arith)))

-- `j` more bytes may follow the one at position `i`.
fits_now : (n p q : ℕ) → n < 4 * q → p * q ≡ 2 ^ 126 → n * p < 2 ^ 128
fits_now n zero q h e = absurd (omega (arith, e))
fits_now n (suc p) q h e = omega (arith, mul-lt-mul_of_pos_right {k = suc p} h (omega arith))

split_value : (n p : ℕ) → n % 128 * p + n / 128 * (128 * p) ≡ n * p
split_value n p =
    let e : n ≡ n % 128 + n / 128 * 128 = omega arith in omega (arith, ap (λ (t : ℕ). t * p) e)

module _ (i n acc : ℕ) (ha : acc < 2 ^ (7 * i)) (fits : n * 2 ^ (7 * i) < 2 ^ 128) where
  low_fits : n % 128 * 2 ^ (7 * i) < 2 ^ 128
  low_fits = grind arith

  next_acc : acc + n % 128 * 2 ^ (7 * i) < 2 ^ (7 * (i + 1))
  next_acc = rw (shift_step i) (grind arith)

  next_value : acc + n % 128 * 2 ^ (7 * i) + n / 2 ^ 7 * 2 ^ (7 * (i + 1)) ≡ acc + n * 2 ^ (7 * i)
  next_value = rw (shift_step i) (omega (arith, split_value n (2 ^ (7 * i))))

room_step : (p q c : ℕ) → p * (128 * q) ≡ c → 128 * p * q ≡ c
room_step p q c h = omega (arith, h)

group_step : (n q : ℕ) → n < 4 * (128 * q) → n / 2 ^ 7 < 4 * q
group_step n q h = omega arith

decode_groups :
    (j i n acc : ℕ) (w : Acc ◌<◌ n) (rest : List ℕ)
    → i + j ≡ 18
    → 2 ^ (7 * i) * 128 ^ j ≡ 2 ^ 126
    → n < 4 * 128 ^ j
    → acc < 2 ^ (7 * i)
    → decode_loop (encode_loop n w [] ++ rest) i acc
      ≡ ok (acc + n * 2 ^ (7 * i), i + length (encode_loop n w []))
decode_groups zero i n acc (Acc.intro _ below) rest hi hp hn ha =
    rw (encode_loop_last n below [] (omega arith)) (
      decode_last i n acc rest (omega arith) (omega arith) ha
        (fits_now n (2 ^ (7 * i)) 1 (omega arith) hp))
decode_groups (suc j) i n acc (Acc.intro _ below) rest hi hp hn ha = elim (dec_lt 0 (n / 2 ^ 7)) [
  | yes h ↦
      let fits = fits_now n (2 ^ (7 * i)) (128 ^ suc j) hn hp in
      rw
        (
          encode_loop_more n below [] h,
          encode_loop-append (n / 2 ^ 7) (below _ (shift_lt n h)) (bit_or (n % 256) 0x80 ∷ []),
        )
        (rw
          (decode_more i n acc (encode_loop (n / 2 ^ 7) (below _ (shift_lt n h)) [] ++ rest)
            (omega arith) ha (low_fits i n acc ha fits))
          (rw
            (decode_groups j (i + 1) (n / 2 ^ 7) (acc + n % 128 * 2 ^ (7 * i))
              (below _ (shift_lt n h)) rest (omega arith)
              (rw (shift_step i)
                (room_step (2 ^ (7 * i)) (128 ^ j) (2 ^ 126) (rw (pow-succ' 128 j) at hp)))
              (group_step n (128 ^ j) (rw (pow-succ' 128 j) at hn)) (next_acc i n acc ha fits))
            (rw (next_value i n acc ha fits)
              (ap (λ (t : ℕ). ok (acc + n * 2 ^ (7 * i), t)) (omega arith)))))
  | no h ↦ rw (encode_loop_last n below [] h) (
      decode_last i n acc rest (omega arith) (omega arith) ha
        (fits_now n (2 ^ (7 * i)) (128 ^ suc j) hn hp))
]

encode_eq_loop : (n : ℕ) (v : List ℕ) → encode_to_vec n v ≡ encode_loop n (lt_wf.apply n) v
unfolding encode_to_vec
encode_eq_loop n v = refl

pub decode_eq_loop : (buffer : List ℕ) → decode buffer ≡ decode_loop buffer 0 0
unfolding decode
decode_eq_loop buffer = refl

pub encode_to_vec-append : (n : ℕ) (v : List ℕ) → encode_to_vec n v ≡ v ++ encode_to_vec n []
encode_to_vec-append n v =
    rw (encode_eq_loop n v, encode_eq_loop n []) (encode_loop-append n (lt_wf.apply n) v)

-- The bytes of `encode_to_vec` decode to the number and to the count of the bytes, whatever
-- follows them, for every `u128`.
pub decode-encode_to_vec :
    (n : ℕ) (rest : List ℕ)
    → n < 2 ^ 128
    → decode (encode_to_vec n [] ++ rest) ≡ ok (n, length (encode_to_vec n []))
decode-encode_to_vec n rest h =
    rw (decode_eq_loop (encode_to_vec n [] ++ rest), encode_eq_loop n [])
      (rw (decode_groups 18 0 n 0 (lt_wf.apply n) rest refl refl h (omega arith)) (ground arith))
