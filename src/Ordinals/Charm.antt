-- ===== src/Ordinals/Charm.antt =====
-- crates/ordinals/src/charm.rs, and `charms` of crates/ordinals/src/sat.rs: the
-- charms of a sat as bits of a `u16`.
pub mod Bits
use lord.Prelude.{
  ℕ, ◌-◌, ◌%◌, ◌^◌, Bool, true, false, not, Option, some, List, [], ◌∷◌, ◌==◌, bit_and, bit_or,
  if◌then◌else◌,
}
use lord.Prelude.Monad.{◌>>=◌}
use lord.Ordinals.Sat
use lord.Ordinals.Sat.{Rarity, rarity}

pub data Charm : Type 0 where
  coin cursed epic legendary lost nineball rare reinscription unbound uncommon vindicated mythic
        burned palindrome :
      Charm

unfoldable pub code : Charm → ℕ
code Charm.coin = 0
code Charm.cursed = 1
code Charm.epic = 2
code Charm.legendary = 3
code Charm.lost = 4
code Charm.nineball = 5
code Charm.rare = 6
code Charm.reinscription = 7
code Charm.unbound = 8
code Charm.uncommon = 9
code Charm.vindicated = 10
code Charm.mythic = 11
code Charm.burned = 12
code Charm.palindrome = 13

-- `ALL`
abbrev pub all : List Charm
all =
    Charm.coin ∷ Charm.uncommon ∷ Charm.rare ∷ Charm.epic ∷ Charm.legendary ∷ Charm.mythic
    ∷ Charm.nineball ∷ Charm.palindrome ∷ Charm.reinscription ∷ Charm.cursed ∷ Charm.unbound
    ∷ Charm.lost ∷ Charm.vindicated ∷ Charm.burned ∷ []

unfoldable pub flag : Charm → ℕ
unfolding code
flag charm = 2 ^ code charm % 2 ^ 16

unfoldable pub set : Charm → ℕ → ℕ
unfolding flag
set charm charms = bit_or charms (flag charm)

unfoldable pub is_set : Charm → ℕ → Bool
unfolding flag
is_set charm charms = not (bit_and charms (flag charm) == 0)

-- `!flag` on 16 bits
unfoldable pub unset : Charm → ℕ → ℕ
unfolding flag
unset charm charms = bit_and charms (2 ^ 16 - 1 - flag charm)

unfoldable pub filter_set : ℕ → List Charm → List Charm
unfolding is_set
filter_set bits [] = []
filter_set bits (c ∷ cs) = let rest = filter_set bits cs in if is_set c bits then c ∷ rest else rest

-- `Charm::charms`
unfoldable pub charms : ℕ → List Charm
unfolding filter_set
charms bits = filter_set bits all

unfoldable pub set_if : Bool → Charm → ℕ → ℕ
unfolding set
set_if true charm charms = set charm charms
set_if false charm charms = charms

unfoldable pub set_rarity : Rarity → ℕ → ℕ
unfolding set
set_rarity Rarity.common charms = charms
set_rarity Rarity.epic charms = set Charm.epic charms
set_rarity Rarity.legendary charms = set Charm.legendary charms
set_rarity Rarity.mythic charms = set Charm.mythic charms
set_rarity Rarity.rare charms = set Charm.rare charms
set_rarity Rarity.uncommon charms = set Charm.uncommon charms

-- The body of `Sat::charms`, over the tests of the sat.
unfoldable pub gather : Bool → Bool → Bool → Rarity → ℕ
unfolding set_if set_rarity
gather nine pal whole r =
    set_rarity r
      (set_if whole Charm.coin (set_if pal Charm.palindrome (set_if nine Charm.nineball 0)))

-- `Sat::charms`; `none` where the rarity panics.
unfoldable pub sat_charms : ℕ → Option ℕ
sat_charms sat = do
  r ← rarity sat
  some (gather (Sat.nineball sat) (Sat.palindrome sat) (Sat.coin sat) r)
