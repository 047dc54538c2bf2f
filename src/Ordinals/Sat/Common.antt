-- ===== src/Ordinals/Sat/Common.antt =====
-- The fast test for a common sat agrees with the rarity.
use native.Mathlib.Nat.{div-add-mod}
use mathlib.Core.Option.{some-injective}
use lord.Prelude.{
  ℕ, ◌+◌, ◌-◌, ◌*◌, ◌/◌, ◌%◌, ◌^◌, ◌≤◌, ◌<◌, ◌≡◌, ◌≢◌, ◌↔◌, refl, ap, true, some, ltb, leb, ◌==◌,
  ==_iff, arith, ◌||◌,
}
use lord.Prelude.Bits.{all_below, all_below_sound}
use lord.Ordinals.Constants.{supply}
use lord.Ordinals.Epoch
use lord.Ordinals.Epoch.Table.{from_sat_bounds}
use lord.Ordinals.Sat.{Degree, common, rarity_of_degree, rarity, degree, is_common, is_multiple_of}
use lord.Ordinals.Sat.Position.{blocks, reward_pos, height_lem, third_lem}

rarity_of_degree-common : (d : Degree) → (rarity_of_degree d ≡ common) ↔ (d.third ≢ 0)
unfolding rarity_of_degree
rarity_of_degree-common d = ground arith

some_common : (d : Degree) → (some (rarity_of_degree d) ≡ some common) ↔ (d.third ≢ 0)
some_common d =
    let r = rarity_of_degree-common d in ((λ e. r.0 (some-injective _ _ e)), (λ n. ap some (r.1 n)))

starts_table : all_below 10 (λ e. Epoch.starting_sat e % 9765625 == 0) ≡ true
unfolding all_below Epoch.starting_sat
starts_table = refl

rewards_table : all_below 10 (λ e. Epoch.subsidy e % 9765625 == 0) ≡ true
unfolding all_below Epoch.subsidy
rewards_table = refl

late_table :
    all_below 33 (λ e. ltb e 10 || leb (Epoch.starting_sat 10) (Epoch.starting_sat e)) ≡ true
unfolding all_below Epoch.starting_sat
late_table = refl

-- A sat below the start of epoch 10 is in an earlier epoch.
early_epoch : (sat : ℕ) → sat < supply → sat < Epoch.starting_sat 10 → Epoch.from_sat sat < 10
early_epoch sat h early =
    ground (arith, from_sat_bounds sat h, all_below_sound 33 _ (Epoch.from_sat sat) late_table)

multiple_lem : (a b : ℕ) → 0 < b → is_multiple_of a b ≡ (a % b == 0)
unfolding is_multiple_of
multiple_lem a b h = ground arith

sub_lem : (a b : ℕ) → b ≤ a → a < 2 ^ 64 → (a + 2 ^ 64 - b) % 2 ^ 64 ≡ a - b
sub_lem a b h k = omega arith

nine : Epoch.subsidy 9 ≡ 9765625
unfolding Epoch.subsidy
nine = refl

module _ (sat : ℕ) (h : sat < supply) where
  abbrev start : ℕ
  start = Epoch.starting_sat (Epoch.from_sat sat)

  abbrev reward : ℕ
  reward = Epoch.subsidy (Epoch.from_sat sat)

  -- The fast path is right: what it calls common is not the first sat of a block.
  fast_path : sat < Epoch.starting_sat 10 → sat % 9765625 ≢ 0 → (sat - start) % reward ≢ 0
  fast_path early rough zero_rem =
      let e = early_epoch sat h early in
      let starts = (==_iff _ _).0 (all_below_sound 10 _ (Epoch.from_sat sat) starts_table e) in
      let rewards = (==_iff _ _).0 (all_below_sound 10 _ (Epoch.from_sat sat) rewards_table e) in
      let m : reward ≡ 9765625 * (reward / 9765625) = omega (arith, rewards) in
      rough (
        omega (
          arith,
          starts,
          div-add-mod (sat - start) reward,
          ap (λ (t : ℕ). t * blocks sat h) m,
          from_sat_bounds sat h,
        ))

  is_common_lem : (is_common sat ≡ true) ↔ ((sat - start) % reward ≢ 0)
  unfolding is_common
  is_common_lem = ground (
    arith,
    fast_path,
    from_sat_bounds sat h,
    reward_pos sat h,
    sub_lem sat start,
    multiple_lem sat (Epoch.subsidy 9),
    multiple_lem (sat - start) reward,
    nine,
  )

  rarity_lem : (rarity sat ≡ some common) ↔ ((sat - start) % reward ≢ 0)
  unfolding rarity degree
  rarity_lem = rw (height_lem sat h, third_lem sat h) (some_common _)

-- Of the sats of the supply, the test that avoids the full computation holds exactly of those whose
-- rarity is common.
pub is_common-rarity :
    (sat : ℕ) → sat < supply → (is_common sat ≡ true) ↔ (rarity sat ≡ some common)
is_common-rarity sat h =
    let a = is_common_lem sat h in
    let b = rarity_lem sat h in ((λ t. b.1 (a.0 t)), (λ t. a.1 (b.0 t)))
