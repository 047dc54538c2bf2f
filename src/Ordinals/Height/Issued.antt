-- ===== src/Ordinals/Height/Issued.antt =====
-- The first sat of a block is the count of all sats issued before it.
use native.Mathlib.Nat.{mul-le-mul}
use lord.Prelude.{
  ℕ, zero, suc, ◌+◌, ◌-◌, ◌*◌, ◌/◌, ◌%◌, ◌^◌, ◌≤◌, ◌<◌, ◌≡◌, refl, ◌∙◌, dec_lt, arith,
}
use lord.Ordinals.Constants.{subsidy_halving_interval, supply}
use lord.Ordinals.Epoch
use lord.Ordinals.Epoch.Table.{
  starting_sat-suc, starting_sat-le, subsidy-le, subsidy_after, starting_sat_after,
}
use lord.Ordinals.Height.{subsidy, starting_sat}

-- The sats of the blocks below a height, one block after another.
pub issued : ℕ → ℕ
issued zero = 0
issued (suc height) = issued height + subsidy height

-- `starting_sat` without the wrap.
plain_start : ℕ → ℕ
plain_start height =
    let epoch = height / subsidy_halving_interval in
    Epoch.starting_sat epoch + height % subsidy_halving_interval * Epoch.subsidy epoch

module _ (height : ℕ) where
  abbrev quotient : ℕ
  quotient = height / subsidy_halving_interval

  abbrev offset : ℕ
  offset = height % subsidy_halving_interval

  same_epoch :
      offset + 1 < subsidy_halving_interval
      → plain_start (suc height) ≡ plain_start height + Epoch.subsidy quotient
  unfolding plain_start
  same_epoch h =
      let q : suc height / subsidy_halving_interval ≡ quotient = omega arith in
      let r : suc height % subsidy_halving_interval ≡ offset + 1 = omega arith in
      rw (q, r) (omega arith)

  next_epoch :
      ¬ (offset + 1 < subsidy_halving_interval)
      → plain_start (suc height) ≡ plain_start height + Epoch.subsidy quotient
  unfolding plain_start
  next_epoch h =
      let q : suc height / subsidy_halving_interval ≡ suc quotient = omega arith in
      let r : suc height % subsidy_halving_interval ≡ 0 = omega arith in
      let last : offset ≡ 209_999 = omega arith in
      rw (q, r, last)
        (elim (dec_lt quotient 33) [
          | yes lt ↦ omega (arith, starting_sat-suc quotient lt)
          | no ge ↦ omega (
            arith,
            subsidy_after quotient (omega arith),
            starting_sat_after quotient (omega arith),
            starting_sat_after (suc quotient) (omega arith),
          )
        ])

-- At the next height, in the same epoch or in the next one.
plain_start-suc : (height : ℕ) → plain_start (suc height) ≡ plain_start height + subsidy height
unfolding subsidy Epoch.from_height
plain_start-suc height =
    elim (dec_lt (height % subsidy_halving_interval + 1) subsidy_halving_interval) [
      | yes h ↦ same_epoch height h
      | no h ↦ next_epoch height h
    ]

plain_start-eq-issued : (height : ℕ) → plain_start height ≡ issued height
unfolding issued
plain_start-eq-issued zero = unfold plain_start Epoch.starting_sat Epoch.subsidy in refl
plain_start-eq-issued (suc height) =
    omega (arith, plain_start-suc height, plain_start-eq-issued height)

no_wrap :
    (height start subsidy : ℕ)
    → height < 2 ^ 32
    → start ≤ supply
    → subsidy ≤ 5_000_000_000
    → (start + (height + 2 ^ 32 - height / 210_000 * 210_000 % 2 ^ 32) % 2 ^ 32 * subsidy % 2 ^ 64)
        % 2 ^ 64
      ≡ start + height % 210_000 * subsidy
no_wrap height start subsidy h hs hm =
    let o : (height + 2 ^ 32 - height / 210_000 * 210_000 % 2 ^ 32) % 2 ^ 32 ≡ height % 210_000 =
      omega arith in
    let r : height % 210_000 ≤ 210_000 = omega arith in rw o (omega (arith, mul-le-mul r hm))

-- `starting_sat` by epoch and offset, with no wrap.
pub starting_sat-eq-plain :
    (height : ℕ)
    → height < 2 ^ 32
    → starting_sat height
      ≡ Epoch.starting_sat (Epoch.from_height height)
        + height % subsidy_halving_interval * Epoch.subsidy (Epoch.from_height height)
unfolding starting_sat Epoch.from_height Epoch.starting_height
starting_sat-eq-plain height h = no_wrap height _ _ h (starting_sat-le _) (subsidy-le _)

plain_start_lem :
    (height : ℕ)
    → Epoch.starting_sat (Epoch.from_height height)
        + height % subsidy_halving_interval * Epoch.subsidy (Epoch.from_height height)
      ≡ plain_start height
unfolding plain_start Epoch.from_height
plain_start_lem height = refl

-- For every `u32` height, the first sat of the block is the count of the sats that all the blocks
-- before it issued.
pub starting_sat-eq-issued : (height : ℕ) → height < 2 ^ 32 → starting_sat height ≡ issued height
starting_sat-eq-issued height h =
    starting_sat-eq-plain height h ∙ plain_start_lem height ∙ plain_start-eq-issued height
