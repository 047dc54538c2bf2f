-- ===== src/Tests/Numbers.antt =====
-- The crate crates/ordinals at concrete numbers.
use lord.Prelude.{
  List, ℕ, suc, ◌^◌, ◌≤◌, ◌<◌, ◌≡◌, ◌↔◌, refl, true, some, [], ◌∷◌, ◌++◌, length, arith,
}
use lord.Ordinals.Varint.{encode_to_vec, decode, decode_loop}
use lord.Ordinals.Varint
use lord.Ordinals.Varint.RoundTrip.{decode-encode_to_vec}
use lord.Ordinals.Varint.Bounds.{decode_bounds}
use lord.Ordinals.Epoch
use lord.Ordinals.Epoch.Table.{from_sat_bounds}
use lord.Ordinals.Height
use lord.Ordinals.Height.Issued.{issued, starting_sat-eq-issued}
use lord.Ordinals.Sat
use lord.Ordinals.Sat.{
  Degree, DecimalSat, degree, decimal, from_degree, from_decimal, name, from_name, from_name_loop,
  rarity, rarity_of_degree, is_common,
}
use lord.Ordinals.Sat.Position.{from_decimal-decimal}
use lord.Ordinals.Sat.Common.{is_common-rarity}
use lord.Ordinals.Sat.FromDegree.{from_degree-degree}
use lord.Ordinals.Sat.Name.{from_name-name}
use lord.Ordinals.Charm.{Charm, is_set, sat_charms}
use lord.Ordinals.Charm.Bits.{has_charm, is_set-sat_charms}

-- The last sat of the first block, whose number is not a multiple of a subsidy.
abbrev late_sat : ℕ
late_sat = 4_999_999_999

decode-encode_to_vec_example :
    decode (encode_to_vec 300 [] ++ (7 ∷ [])) ≡ Varint.ok (300, length (encode_to_vec 300 []))
decode-encode_to_vec_example = decode-encode_to_vec 300 (7 ∷ []) (omega arith)

two_bytes : decode (172 ∷ 2 ∷ 7 ∷ []) ≡ Varint.ok (300, 2)
unfolding decode decode_loop
two_bytes = refl

-- Eighteen bytes of 0x80 and a last one: a code of 2 ^ 128, read as 0.
abbrev overlong : List ℕ
overlong =
    128 ∷ 128 ∷ 128 ∷ 128 ∷ 128 ∷ 128 ∷ 128 ∷ 128 ∷ 128 ∷ 128 ∷ 128 ∷ 128 ∷ 128 ∷ 128 ∷ 128 ∷ 128
    ∷ 128 ∷ 128 ∷ 4 ∷ []

high_bits_lost : decode overlong ≡ Varint.ok (0, 19)
unfolding decode decode_loop
high_bits_lost = refl

-- A cycle number that a `u32` cannot multiply by 6 is read like cycle 2.
cycle_wraps : from_degree 2_147_483_650 0 0 0 ≡ from_degree 2 0 0 0
unfolding from_degree
cycle_wraps = refl

decode_bounds_example :
    (300 < 2 ^ 128) × (0 < 2) × (2 ≤ 19) × (2 ≤ length {A = ℕ} (172 ∷ 2 ∷ 7 ∷ []))
decode_bounds_example = decode_bounds (172 ∷ 2 ∷ 7 ∷ []) 300 2 two_bytes

from_sat_bounds_example :
    (Epoch.from_sat late_sat < 33)
    × (Epoch.starting_sat (Epoch.from_sat late_sat) ≤ late_sat)
    × (late_sat < Epoch.starting_sat (suc (Epoch.from_sat late_sat)))
from_sat_bounds_example = from_sat_bounds late_sat (omega arith)

starting_sat-eq-issued_example : Height.starting_sat 210_001 ≡ issued 210_001
starting_sat-eq-issued_example = starting_sat-eq-issued 210_001 (omega arith)

from_decimal-decimal_example :
    (d : DecimalSat) × (decimal late_sat ≡ some d)
    × (from_decimal d.height d.offset ≡ Sat.ok late_sat)
from_decimal-decimal_example = from_decimal-decimal late_sat (omega arith)

from_degree-degree_example :
    (d : Degree) × (degree late_sat ≡ some d)
    × (from_degree d.hour d.minute d.second d.third ≡ Sat.ok late_sat)
from_degree-degree_example = from_degree-degree late_sat (omega arith)

is_common-rarity_example : (is_common late_sat ≡ true) ↔ (rarity late_sat ≡ some Sat.common)
is_common-rarity_example = is_common-rarity late_sat (omega arith)

from_name-name_example : from_name (name late_sat) ≡ Sat.ok late_sat
from_name-name_example = from_name-name late_sat (omega arith)

last_sat : from_name (97 ∷ []) ≡ Sat.ok 2_099_999_997_689_999
unfolding from_name from_name_loop
last_sat = refl

late_sat-is_common : is_common late_sat ≡ true
unfolding is_common Epoch.from_sat Epoch.first_above Epoch.starting_sat Epoch.subsidy
    Sat.is_multiple_of
late_sat-is_common = refl

late_sat_common : rarity late_sat ≡ some Sat.common
late_sat_common = (is_common-rarity late_sat (omega arith)).0 late_sat-is_common

is_set-sat_charms_example :
    (bits : ℕ) × (sat_charms late_sat ≡ some bits)
    × ((c : Charm)
        → is_set c bits
          ≡ has_charm
              (Sat.nineball late_sat)
              (Sat.palindrome late_sat)
              (Sat.coin late_sat)
              Sat.common
              c)
is_set-sat_charms_example = is_set-sat_charms late_sat Sat.common late_sat_common
