-- ===== src/Ordinals/Constants.antt =====
-- The constants of crates/ordinals/src/lib.rs, those that it takes from the bitcoin crate
-- (`SUBSIDY_HALVING_INTERVAL` and `DIFFCHANGE_INTERVAL`), and arithmetic of 32 and 64 bits.
use lord.Prelude.{ℕ, ◌+◌, ◌-◌, ◌*◌, ◌%◌, ◌^◌}

abbrev pub coin_value : ℕ
coin_value = 100_000_000

abbrev pub cycle_epochs : ℕ
cycle_epochs = 6

abbrev pub subsidy_halving_interval : ℕ
subsidy_halving_interval = 210_000

abbrev pub diffchange_interval : ℕ
diffchange_interval = 2016

-- `Sat::SUPPLY`
abbrev pub supply : ℕ
supply = 2_099_999_997_690_000

-- A release build wraps.
abbrev pub add_u32 : ℕ → ℕ → ℕ
add_u32 a b = (a + b) % 2 ^ 32

abbrev pub mul_u32 : ℕ → ℕ → ℕ
mul_u32 a b = a * b % 2 ^ 32

abbrev pub sub_u32 : ℕ → ℕ → ℕ
sub_u32 a b = (a + 2 ^ 32 - b) % 2 ^ 32

abbrev pub add_u64 : ℕ → ℕ → ℕ
add_u64 a b = (a + b) % 2 ^ 64

abbrev pub mul_u64 : ℕ → ℕ → ℕ
mul_u64 a b = a * b % 2 ^ 64

abbrev pub sub_u64 : ℕ → ℕ → ℕ
sub_u64 a b = (a + 2 ^ 64 - b) % 2 ^ 64
