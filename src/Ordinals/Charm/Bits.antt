-- ===== src/Ordinals/Charm/Bits.antt =====
-- Which bits `Sat::charms` sets.
use lord.Prelude.{ℕ, ◌≡◌, refl, Bool, true, false, ◌&&◌, not, some, arith}
use lord.Ordinals.Sat
use lord.Ordinals.Sat.{Rarity, rarity}
use lord.Ordinals.Charm.{Charm, is_set, gather, sat_charms}

-- The charm that a rarity brings.
abbrev pub is_rarity_charm : Rarity → Charm → Bool
is_rarity_charm Rarity.epic Charm.epic = true
is_rarity_charm Rarity.legendary Charm.legendary = true
is_rarity_charm Rarity.mythic Charm.mythic = true
is_rarity_charm Rarity.rare Charm.rare = true
is_rarity_charm Rarity.uncommon Charm.uncommon = true
is_rarity_charm _ _ = false

-- Whether a sat has a charm, from the tests of the sat.
abbrev pub has_charm : Bool → Bool → Bool → Rarity → Charm → Bool
has_charm nine pal whole r Charm.nineball = nine
has_charm nine pal whole r Charm.palindrome = pal
has_charm nine pal whole r Charm.coin = whole
has_charm nine pal whole r c = is_rarity_charm r c

same : Bool → Bool → Bool
same true b = b
same false b = not b

same_sound : (a b : Bool) → same a b ≡ true → a ≡ b
unfolding same
same_sound true b h = ground arith
same_sound false b h = ground arith

all_bools : (Bool → Bool) → Bool
all_bools p = p true && p false

all_bools_sound : (p : Bool → Bool) (b : Bool) → all_bools p ≡ true → p b ≡ true
unfolding all_bools
all_bools_sound p true h = ground arith
all_bools_sound p false h = ground arith

all_rarities : (Rarity → Bool) → Bool
all_rarities p =
    p Rarity.common
    && (p Rarity.uncommon
        && (p Rarity.rare && (p Rarity.epic && (p Rarity.legendary && p Rarity.mythic))))

all_rarities_sound : (p : Rarity → Bool) (r : Rarity) → all_rarities p ≡ true → p r ≡ true
unfolding all_rarities
all_rarities_sound p Rarity.common h = ground arith
all_rarities_sound p _ h = ground arith

table : Charm → Bool
table c = all_bools λ nine. all_bools λ pal. all_bools λ whole.
    all_rarities λ r. same (is_set c (gather nine pal whole r)) (has_charm nine pal whole r c)

table_holds : (c : Charm) → table c ≡ true
unfolding table all_bools all_rarities same is_set gather
table_holds Charm.coin = refl
table_holds _ = refl

gather_lem :
    (c : Charm) (nine pal whole : Bool) (r : Rarity)
    → is_set c (gather nine pal whole r) ≡ has_charm nine pal whole r c
unfolding table
gather_lem c nine pal whole r = same_sound _ _ (
    all_rarities_sound _ r
      (all_bools_sound _ whole (all_bools_sound _ pal (all_bools_sound _ nine (table_holds c)))))

-- Where a sat has a rarity it has charms, and a bit of them is set exactly when the sat has that
-- charm: the three tests decide nineball, palindrome and coin, the rarity its own charm, and no
-- other charm is ever set.
pub is_set-sat_charms :
    (sat : ℕ) (r : Rarity)
    → rarity sat ≡ some r
    → (bits : ℕ) × (sat_charms sat ≡ some bits)
      × ((c : Charm)
          → is_set c bits ≡ has_charm (Sat.nineball sat) (Sat.palindrome sat) (Sat.coin sat) r c)
unfolding sat_charms
is_set-sat_charms sat r h = (
  gather (Sat.nineball sat) (Sat.palindrome sat) (Sat.coin sat) r,
  rw h,
  λ c. gather_lem c _ _ _ r,
)
