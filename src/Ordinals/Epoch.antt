-- ===== src/Ordinals/Epoch.antt =====
-- crates/ordinals/src/epoch.rs: the halving epochs. An epoch, a height and a sat are numbers.
pub mod Table
use lord.Prelude.{ℕ, suc, ◌*◌, ◌/◌, ◌+◌, ◌^◌, List, [], ◌∷◌, get_or, drop, ltb, if◌then◌else◌}
use lord.Ordinals.Constants.{coin_value, subsidy_halving_interval, supply, mul_u32}

-- `STARTING_SATS`
abbrev pub starting_sats : List ℕ
starting_sats =
    0 ∷ 1050000000000000 ∷ 1575000000000000 ∷ 1837500000000000 ∷ 1968750000000000 ∷ 2034375000000000
    ∷ 2067187500000000 ∷ 2083593750000000 ∷ 2091796875000000 ∷ 2095898437500000 ∷ 2097949218750000
    ∷ 2098974609270000 ∷ 2099487304530000 ∷ 2099743652160000 ∷ 2099871825870000 ∷ 2099935912620000
    ∷ 2099967955890000 ∷ 2099983977420000 ∷ 2099991988080000 ∷ 2099995993410000 ∷ 2099997995970000
    ∷ 2099998997250000 ∷ 2099999497890000 ∷ 2099999748210000 ∷ 2099999873370000 ∷ 2099999935950000
    ∷ 2099999967240000 ∷ 2099999982780000 ∷ 2099999990550000 ∷ 2099999994330000 ∷ 2099999996220000
    ∷ 2099999997060000 ∷ 2099999997480000 ∷ supply ∷ []

abbrev pub first_post_subsidy : ℕ
first_post_subsidy = 33

unfoldable pub subsidy : ℕ → ℕ
subsidy epoch = if ltb epoch first_post_subsidy then 50 * coin_value / 2 ^ epoch else 0

-- Past the table, its last entry.
unfoldable pub starting_sat : ℕ → ℕ
starting_sat epoch = get_or starting_sats epoch supply

unfoldable pub starting_height : ℕ → ℕ
starting_height epoch = mul_u32 epoch subsidy_halving_interval

-- The chain of comparisons of `From<Sat>`: the first entry above the sat ends it.
unfoldable pub first_above : ℕ → List ℕ → ℕ → ℕ
first_above sat [] epoch = epoch
first_above sat (start ∷ starts) epoch =
    if ltb sat start then epoch else first_above sat starts (suc epoch)

unfoldable pub from_sat : ℕ → ℕ
unfolding first_above
from_sat sat = first_above sat (drop 1 starting_sats) 0

unfoldable pub from_height : ℕ → ℕ
from_height height = height / subsidy_halving_interval
