-- ===== src/Ordinals/Epoch/Table.antt =====
-- The table of starting sats is the running sum of the subsidies, and `from_sat` finds the epoch.
use native.Mathlib.Nat.{div-le_self}
use lord.Prelude.{
  ℕ, zero, suc, ◌+◌, ◌*◌, ◌^◌, ◌≤◌, ◌<◌, ◌≡◌, refl, ap, List, [], ◌∷◌, true, ltb, ◌==◌, ==_iff,
  ltb→lt, leb, leb→le, Bool-cases, inl, inr, dec_lt, get_or, drop, length, arith,
}
use lord.Prelude.Bits.{all_below, all_below_sound}
use lord.Ordinals.Constants.{subsidy_halving_interval, supply}
use lord.Ordinals.Epoch.{starting_sats, subsidy, starting_sat, first_above, from_sat}

step_table :
    all_below 33
      (λ e. starting_sat (suc e) == starting_sat e + subsidy_halving_interval * subsidy e)
    ≡ true
unfolding all_below subsidy starting_sat
step_table = refl

-- Before the last epoch the next one begins after a full interval of subsidies.
pub starting_sat-suc :
    (e : ℕ) → e < 33 → starting_sat (suc e) ≡ starting_sat e + subsidy_halving_interval * subsidy e
starting_sat-suc e h = (==_iff _ _).0 (all_below_sound 33 _ e step_table h)

positive_table : all_below 33 (λ e. ltb 0 (subsidy e)) ≡ true
unfolding all_below subsidy
positive_table = refl

-- Every subsidy of the table is positive.
pub subsidy_pos : (e : ℕ) → e < 33 → 0 < subsidy e
subsidy_pos e h = ltb→lt _ _ (all_below_sound 33 _ e positive_table h)

-- From the end of the table on there is no subsidy, and no new sat.
pub subsidy_after : (e : ℕ) → 33 ≤ e → subsidy e ≡ 0
unfolding subsidy
subsidy_after e h = ground arith

get_or_past : (xs : List ℕ) (i d : ℕ) → length xs ≤ i → get_or xs i d ≡ d
get_or_past [] i d h = refl
get_or_past (x ∷ xs) zero d h = absurd (omega arith)
get_or_past (x ∷ xs) (suc i) d h = get_or_past xs i d (omega arith)

pub starting_sat_last : starting_sat 33 ≡ supply
unfolding starting_sat
starting_sat_last = refl

pub starting_sat_after : (e : ℕ) → 33 ≤ e → starting_sat e ≡ supply
unfolding starting_sat
starting_sat_after e h = elim (dec_lt 33 e) [
  | yes more ↦ get_or_past starting_sats e supply (omega arith)
  | no last ↦ let p : e ≡ 33 = omega arith in rw p
]

first_above-suc :
    (sat : ℕ) (starts : List ℕ) (e : ℕ) → first_above sat starts e ≡ e + first_above sat starts 0
unfolding first_above
first_above-suc sat [] e = omega arith
first_above-suc sat (t ∷ ts) e =
    ground (arith, first_above-suc sat ts (suc e), first_above-suc sat ts 1)

one_add : (n : ℕ) → 1 + n ≡ suc n
one_add n = omega arith

-- The chain stops between two neighbours of the list.
first_above_bounds :
    (sat prev d : ℕ) (starts : List ℕ)
    → prev ≤ sat
    → (get_or (prev ∷ starts) (first_above sat starts 0) d ≤ sat)
      × (first_above sat starts 0 ≤ length starts)
      × (first_above sat starts 0 < length starts
          → sat < get_or starts (first_above sat starts 0) d)
unfolding first_above
first_above_bounds sat prev d [] h = (h, omega arith, λ lt. absurd (omega arith))
first_above_bounds sat prev d (t ∷ ts) h = elim (Bool-cases (ltb sat t)) [
  | inl below ↦ rw below (h, omega arith, λ _. ltb→lt sat t below)
  | inr above ↦
      let r = first_above_bounds sat t d ts (ground arith) in
      rw (above, first_above-suc sat ts 1, one_add) (r.0, omega arith, λ lt. r.2 (omega arith))
]

inside : (sat k : ℕ) → get_or starting_sats k supply ≤ sat → k ≤ 33 → sat < supply → k < 33
inside sat k h le lt = elim (dec_lt k 33) [
  | yes p ↦ p
  | no p ↦
      let e : k ≡ 33 = omega arith in
      absurd (omega (arith, ap (λ (i : ℕ). get_or starting_sats i supply) e))
]

from_sat_eq : (sat : ℕ) → from_sat sat ≡ first_above sat (drop 1 starting_sats) 0
unfolding from_sat
from_sat_eq sat = refl

-- A sat of the supply lies in the epoch that is found for it, one of the 33 with a subsidy: at its
-- first sat or above, and below the next one's.
pub from_sat_bounds :
    (sat : ℕ)
    → sat < supply
    → (from_sat sat < 33)
      × (starting_sat (from_sat sat) ≤ sat)
      × (sat < starting_sat (suc (from_sat sat)))
unfolding starting_sat
from_sat_bounds sat h =
    let r = first_above_bounds sat 0 supply (drop 1 starting_sats) (omega arith) in
    let k = inside sat (first_above sat (drop 1 starting_sats) 0) r.0 r.1 h in
    rw from_sat_eq (k, r.0, r.2 k)

all_in_supply : all_below 33 (λ e. leb (starting_sat e) supply) ≡ true
unfolding all_below starting_sat
all_in_supply = refl

pub starting_sat-le : (e : ℕ) → starting_sat e ≤ supply
starting_sat-le e = elim (dec_lt e 33) [
  | yes h ↦ leb→le _ _ (all_below_sound 33 _ e all_in_supply h)
  | no h ↦ omega (arith, starting_sat_after e (omega arith))
]

pub subsidy-le : (e : ℕ) → subsidy e ≤ 5_000_000_000
unfolding subsidy
subsidy-le e = ground (arith, div-le_self 5_000_000_000 (2 ^ e))
