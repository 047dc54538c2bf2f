-- ===== src/Ordinals/Sat.antt =====
-- crates/ordinals/src/sat.rs, degree.rs, decimal_sat.rs and rarity.rs: the numbering of a sat. A sat
-- is its number. `none` is a panic: a division by zero or a number that is no `u32`.
pub mod Position
pub mod Common
pub mod FromDegree
pub mod Name
use mathlib.Core.Logic.{dite}
use mathlib.Core.WellFounded.{Acc}
use lord.Prelude.{
  ℕ, zero, suc, ◌+◌, ◌-◌, ◌*◌, ◌/◌, ◌%◌, ◌^◌, Bool, true, false, not, ◌&&◌, Option, none, some,
  List, [], ◌∷◌, ◌++◌, reverse, dec_lt, arith, ◌<◌, ltb, leb, ◌==◌, if◌then◌else◌, get_or,
}
use lord.Prelude.Order.{lt_wf}
use lord.Prelude.Monad.{◌>>=◌}
use lord.Ordinals.Constants.{
  coin_value, cycle_epochs, subsidy_halving_interval, diffchange_interval, supply, add_u32, mul_u32,
  sub_u32, add_u64, sub_u64,
}
use lord.Ordinals.Epoch
use lord.Ordinals.Height

unfoldable pub checked_div : ℕ → ℕ → Option ℕ
checked_div a b = if b == 0 then none else some (a / b)

unfoldable pub checked_rem : ℕ → ℕ → Option ℕ
checked_rem a b = if b == 0 then none else some (a % b)

unfoldable pub to_u32 : ℕ → Option ℕ
to_u32 n = if ltb n (2 ^ 32) then some n else none

unfoldable pub epoch_position : ℕ → ℕ
epoch_position sat = sub_u64 sat (Epoch.starting_sat (Epoch.from_sat sat))

unfoldable pub height : ℕ → Option ℕ
height sat = do
  blocks ← checked_div (epoch_position sat) (Epoch.subsidy (Epoch.from_sat sat))
  n ← to_u32 blocks
  some (add_u32 (Epoch.starting_height (Epoch.from_sat sat)) n)

unfoldable pub third : ℕ → Option ℕ
third sat = checked_rem (epoch_position sat) (Epoch.subsidy (Epoch.from_sat sat))

unfoldable pub cycle : ℕ → ℕ
cycle sat = Epoch.from_sat sat / cycle_epochs

unfoldable pub period : ℕ → Option ℕ
period sat = do h ← height sat; some (h / diffchange_interval)

pub record DecimalSat : Type 0 where
  pub height : ℕ
  pub offset : ℕ

unfoldable pub decimal : ℕ → Option DecimalSat
decimal sat = do h ← height sat; t ← third sat; some (record { height = h; offset = t })

pub record Degree : Type 0 where
  pub hour : ℕ
  pub minute : ℕ
  pub second : ℕ
  pub third : ℕ

unfoldable pub degree : ℕ → Option Degree
degree sat = do
  h ← height sat
  t ← third sat
  some (record {
    hour = h / (cycle_epochs * subsidy_halving_interval);
    minute = h % subsidy_halving_interval;
    second = h % diffchange_interval;
    third = t;
  })

pub data Rarity : Type 0 where
  common uncommon rare epic legendary mythic : Rarity

unfoldable pub rarity_of_degree : Degree → Rarity
rarity_of_degree d =
    if d.hour == 0 && d.minute == 0 && d.second == 0 && d.third == 0
    then mythic
    else if d.minute == 0 && d.second == 0 && d.third == 0
    then legendary
    else if d.minute == 0 && d.third == 0
    then epic
    else if d.second == 0 && d.third == 0
    then rare
    else if d.third == 0
    then uncommon
    else common

unfoldable pub rarity : ℕ → Option Rarity
rarity sat = do d ← degree sat; some (rarity_of_degree d)

-- `is_multiple_of`; of zero, zero alone is a multiple.
unfoldable pub is_multiple_of : ℕ → ℕ → Bool
is_multiple_of a b = if b == 0 then a == 0 else a % b == 0

unfoldable pub is_common : ℕ → Bool
unfolding is_multiple_of
is_common sat =
    let epoch = Epoch.from_sat sat in
    if ltb sat (Epoch.starting_sat 10) && not (is_multiple_of sat (Epoch.subsidy 9))
    then true
    else not (is_multiple_of (sub_u64 sat (Epoch.starting_sat epoch)) (Epoch.subsidy epoch))

unfoldable pub nineball : ℕ → Bool
nineball sat = leb (50 * coin_value * 9) sat && ltb sat (50 * coin_value * 10)

unfoldable pub coin : ℕ → Bool
unfolding is_multiple_of
coin sat = is_multiple_of sat coin_value

pub data ErrorKind : Type 0 where
  integer_range name_range name_character percentile block_offset missing_period trailing_characters
        missing_degree missing_minute missing_second period_offset epoch_offset
        epoch_period_mismatch :
      ErrorKind

pub data Result : Type 0 where
  ok : ℕ → Result
  err : ErrorKind → Result

-- `from_decimal`, once both parts are parsed.
unfoldable pub from_decimal : ℕ → ℕ → Result
from_decimal height offset =
    if leb (Height.subsidy height) offset
    then err block_offset
    else ok (add_u64 (Height.starting_sat height) offset)

-- `from_degree`, once the four parts are parsed; an absent block offset is 0.
unfoldable pub from_degree : ℕ → ℕ → ℕ → ℕ → Result
unfolding is_multiple_of
from_degree cycle_number epoch_off period_off block_off =
    let cycle_start_epoch = mul_u32 cycle_number cycle_epochs in
    let increment = subsidy_halving_interval % diffchange_interval in
    let relationship =
      sub_u32 (add_u32 period_off (subsidy_halving_interval * cycle_epochs)) epoch_off in
    let epochs_since_cycle_start = relationship % diffchange_interval / increment in
    let epoch = add_u32 cycle_start_epoch epochs_since_cycle_start in
    let h = add_u32 (mul_u32 epoch subsidy_halving_interval) epoch_off in
    if leb subsidy_halving_interval epoch_off
    then err epoch_offset
    else if leb diffchange_interval period_off
    then err period_offset
    else if not (is_multiple_of relationship increment)
    then err epoch_period_mismatch
    else if leb (Height.subsidy h) block_off
    then err block_offset
    else ok (add_u64 (Height.starting_sat h) block_off)

pub letter_shrinks : (x : ℕ) → 0 < x → (x - 1) / 26 < x
letter_shrinks x h = omega arith

-- The loop of `name`, which writes the letters from the last to the first.
unfoldable pub name_loop : (x : ℕ) → Acc ◌<◌ x → List ℕ → List ℕ
name_loop x (Acc.intro _ below) letters =
    dite (dec_lt 0 x)
      (λ h.
        name_loop ((x - 1) / 26) (below _ (letter_shrinks x h))
          (letters ++ (b'a' + (x - 1) % 26) ∷ []))
      (λ _. letters)

unfoldable pub name : ℕ → List ℕ
unfolding name_loop lt_wf dec_lt
name sat = let x = sub_u64 supply sat in reverse (name_loop x (lt_wf.apply x) [])

unfoldable pub from_name_loop : List ℕ → ℕ → Result
from_name_loop [] x = ok (sub_u64 supply x)
from_name_loop (c ∷ cs) x =
    let next = (x * 26 + c + 2 ^ 64 - b'a' + 1) % 2 ^ 64 in
    let rest = from_name_loop cs next in
    if leb b'a' c && leb c b'z'
    then if ltb supply next then err name_range else rest
    else err name_character

unfoldable pub from_name : List ℕ → Result
unfolding from_name_loop
from_name s = from_name_loop s 0

pub tenth_shrinks : (n : ℕ) → 0 < n → n / 10 < n
tenth_shrinks n h = omega arith

unfoldable pub reverse_digits : (n : ℕ) → Acc ◌<◌ n → ℕ → ℕ
reverse_digits n (Acc.intro _ below) reversed =
    dite (dec_lt 0 n)
      (λ h.
        reverse_digits (n / 10) (below _ (tenth_shrinks n h)) ((reversed * 10 + n % 10) % 2 ^ 64))
      (λ _. reversed)

unfoldable pub palindrome : ℕ → Bool
unfolding reverse_digits lt_wf dec_lt
palindrome sat = sat == reverse_digits sat (lt_wf.apply sat) 0
