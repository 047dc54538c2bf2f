-- ===== src/Ordinals/Height.antt =====
-- crates/ordinals/src/height.rs
pub mod Issued
use lord.Prelude.{ℕ, ◌%◌}
use lord.Ordinals.Constants.{diffchange_interval, add_u32, sub_u32, add_u64, mul_u64, sub_u64}
use lord.Ordinals.Epoch

unfoldable pub subsidy : ℕ → ℕ
subsidy height = Epoch.subsidy (Epoch.from_height height)

unfoldable pub starting_sat : ℕ → ℕ
starting_sat height =
    let epoch = Epoch.from_height height in
    let epoch_starting_sat = Epoch.starting_sat epoch in
    let epoch_starting_height = Epoch.starting_height epoch in
    add_u64 epoch_starting_sat
      (mul_u64 (sub_u32 height epoch_starting_height) (Epoch.subsidy epoch))

unfoldable pub period_offset : ℕ → ℕ
period_offset height = height % diffchange_interval

-- `Add<u32>` and `Sub<u32>`
unfoldable pub add : ℕ → ℕ → ℕ
add height other = add_u32 height other

unfoldable pub sub : ℕ → ℕ → ℕ
sub height other = sub_u32 height other
