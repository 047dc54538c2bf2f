-- ===== src/Ordinals/Sat/Position.antt =====
-- Where a sat stands: its block and its offset in the block give it back.
use native.Mathlib.Nat.{div-add-mod, mul-le-mul_right}
use lord.Prelude.{
  ℕ, ◌+◌, ◌-◌, ◌*◌, ◌/◌, ◌%◌, ◌^◌, ◌≤◌, ◌<◌, ◌≡◌, refl, ap, some, lt→ltb, dec_lt, arith,
}
use lord.Ordinals.Constants.{supply}
use lord.Ordinals.Epoch
use lord.Ordinals.Epoch.Table.{from_sat_bounds, starting_sat-suc, subsidy_pos}
use lord.Ordinals.Height
use lord.Ordinals.Height.Issued.{starting_sat-eq-plain}
use lord.Ordinals.Sat.{
  checked_div, checked_rem, to_u32, epoch_position, height, third, decimal, DecimalSat, ok,
  from_decimal,
}

div-lt : (a b n : ℕ) → 0 < b → a < n * b → a / b < n
div-lt a b n h k = elim (dec_lt (a / b) n) [
  | yes p ↦ p
  | no p ↦
      let q : n ≤ a / b = omega arith in
      absurd (omega (arith, div-add-mod a b, mul-le-mul_right b q))
]

checked_div_lem : (a b : ℕ) → 0 < b → checked_div a b ≡ some (a / b)
unfolding checked_div
checked_div_lem a b h = ground arith

checked_rem_lem : (a b : ℕ) → 0 < b → checked_rem a b ≡ some (a % b)
unfolding checked_rem
checked_rem_lem a b h = ground arith

to_u32_lem : (n : ℕ) → n < 2 ^ 32 → to_u32 n ≡ some n
unfolding to_u32
to_u32_lem n h = rw (lt→ltb n (2 ^ 32) h)

module _ (sat : ℕ) (in_supply : sat < supply) where
  abbrev pub epoch : ℕ
  epoch = Epoch.from_sat sat

  abbrev start : ℕ
  start = Epoch.starting_sat epoch

  abbrev reward : ℕ
  reward = Epoch.subsidy epoch

  -- The blocks of the epoch before the sat's.
  abbrev pub blocks : ℕ
  blocks = (sat - start) / reward

  pub reward_pos : 0 < reward
  reward_pos = subsidy_pos epoch (from_sat_bounds sat in_supply).0

  pub epoch-lt : epoch < 33
  epoch-lt = (from_sat_bounds sat in_supply).0

  position_lem : epoch_position sat ≡ sat - start
  unfolding epoch_position
  position_lem = omega (arith, from_sat_bounds sat in_supply)

  pub blocks-lt : blocks < 210_000
  blocks-lt =
      div-lt (sat - start) reward 210_000 reward_pos
        (omega (arith, from_sat_bounds sat in_supply, starting_sat-suc epoch epoch-lt))

  block_height : (Epoch.starting_height epoch + blocks) % 2 ^ 32 ≡ epoch * 210_000 + blocks
  unfolding Epoch.starting_height
  block_height = omega (arith, epoch-lt, blocks-lt)

  pub height_lem : height sat ≡ some (epoch * 210_000 + blocks)
  unfolding height
  height_lem =
      rw (position_lem, checked_div_lem (sat - start) reward reward_pos)
        (rw (to_u32_lem blocks (omega (arith, blocks-lt))) (rw block_height))

  pub third_lem : third sat ≡ some ((sat - start) % reward)
  unfolding third
  third_lem = rw position_lem (checked_rem_lem (sat - start) reward reward_pos)

  -- The height lies in the epoch that it was computed from.
  pub same_epoch : Epoch.from_height (epoch * 210_000 + blocks) ≡ epoch
  unfolding Epoch.from_height
  same_epoch = omega (arith, blocks-lt)

  pub height_subsidy : Height.subsidy (epoch * 210_000 + blocks) ≡ reward
  unfolding Height.subsidy
  height_subsidy = ap Epoch.subsidy same_epoch

  pub third-lt : (sat - start) % reward < reward
  third-lt = omega (arith, reward_pos)

  small_height : epoch * 210_000 + blocks < 2 ^ 32
  small_height = omega (arith, epoch-lt, blocks-lt)

  block_offset_lem : (epoch * 210_000 + blocks) % 210_000 ≡ blocks
  block_offset_lem = omega (arith, blocks-lt)

  first_of_block : Height.starting_sat (epoch * 210_000 + blocks) ≡ start + blocks * reward
  first_of_block =
      rw (starting_sat-eq-plain (epoch * 210_000 + blocks) small_height)
        (rw (same_epoch, block_offset_lem) refl)

  pub recompose : Height.starting_sat (epoch * 210_000 + blocks) + (sat - start) % reward ≡ sat
  recompose =
      omega (arith, first_of_block, div-add-mod (sat - start) reward, from_sat_bounds sat in_supply)

  decimal_lem :
      decimal sat
      ≡ some (record { height = epoch * 210_000 + blocks; offset = (sat - start) % reward })
  unfolding decimal
  decimal_lem = rw (height_lem, third_lem)

  from_decimal_lem : from_decimal (epoch * 210_000 + blocks) ((sat - start) % reward) ≡ ok sat
  unfolding from_decimal
  from_decimal_lem = rw (height_subsidy, recompose) (ground (arith, third-lt))

-- Every sat of the supply has a decimal form, its block's height and its offset in the block, and
-- that form is read back as the sat.
pub from_decimal-decimal :
    (sat : ℕ)
    → sat < supply
    → (d : DecimalSat) × (decimal sat ≡ some d) × (from_decimal d.height d.offset ≡ ok sat)
from_decimal-decimal sat h = (_, decimal_lem sat h, from_decimal_lem sat h)
