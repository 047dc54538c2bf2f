-- ===== src/Ordinals/Sat/FromDegree.antt =====
-- The degree of a sat is read back as the sat.
use lord.Prelude.{ℕ, ◌+◌, ◌-◌, ◌*◌, ◌/◌, ◌%◌, ◌^◌, ◌<◌, ◌≡◌, some, arith}
use lord.Ordinals.Constants.{supply}
use lord.Ordinals.Epoch
use lord.Ordinals.Sat.{Degree, degree, ok, from_degree}
use lord.Ordinals.Sat.Position.{
  epoch, blocks, epoch-lt, blocks-lt, height_lem, third_lem, height_subsidy, third-lt, recompose,
}

-- The numbers of `from_degree`, at the degree of block `m` of epoch `e`.
relationship_lem :
    (e m : ℕ)
    → e < 33
    → m < 210_000
    → (((e * 210_000 + m) % 2016 + 210_000 * 6) % 2 ^ 32 + 2 ^ 32 - m) % 2 ^ 32
      ≡ (e * 210_000 + m) % 2016 + 1_260_000 - m
relationship_lem e m he hm = omega arith

multiple_lem :
    (e m : ℕ) → e < 33 → m < 210_000 → ((e * 210_000 + m) % 2016 + 1_260_000 - m) % 336 ≡ 0
multiple_lem e m he hm = omega arith

epochs_lem :
    (e m : ℕ)
    → e < 33
    → m < 210_000
    → ((e * 210_000 + m) % 2016 + 1_260_000 - m) % 2016 / 336 ≡ e % 6
epochs_lem e m he hm = omega arith

height_again :
    (e m : ℕ)
    → e < 33
    → m < 210_000
    → (((e * 210_000 + m) / 1_260_000 * 6 % 2 ^ 32 + e % 6) % 2 ^ 32 * 210_000 % 2 ^ 32 + m)
        % 2 ^ 32
      ≡ e * 210_000 + m
height_again e m he hm = omega arith

module _ (sat : ℕ) (h : sat < supply) where
  abbrev block : ℕ
  block = epoch sat h * 210_000 + blocks sat h

  abbrev offset : ℕ
  offset = (sat - Epoch.starting_sat (epoch sat h)) % Epoch.subsidy (epoch sat h)

  degree_lem :
      degree sat
      ≡ some (record {
        hour = block / (6 * 210_000);
        minute = block % 210_000;
        second = block % 2016;
        third = offset;
      })
  unfolding degree
  degree_lem = rw (height_lem sat h, third_lem sat h)

  minute_lem : block % 210_000 ≡ blocks sat h
  minute_lem = omega (arith, blocks-lt sat h)

  from_degree_lem :
      from_degree (block / (6 * 210_000)) (block % 210_000) (block % 2016) offset ≡ ok sat
  unfolding from_degree
  from_degree_lem =
      let e = epoch-lt sat h in
      let m = blocks-lt sat h in
      rw (minute_lem, relationship_lem (epoch sat h) (blocks sat h) e m)
        (rw
          (
            epochs_lem (epoch sat h) (blocks sat h) e m,
            multiple_lem (epoch sat h) (blocks sat h) e m,
          )
          (rw (height_again (epoch sat h) (blocks sat h) e m, height_subsidy sat h)
            (rw (recompose sat h) (ground (arith, third-lt sat h, m)))))

-- Every sat of the supply has a degree, and the parts of the degree are read back as the sat.
pub from_degree-degree :
    (sat : ℕ)
    → sat < supply
    → (d : Degree) × (degree sat ≡ some d) × (from_degree d.hour d.minute d.second d.third ≡ ok sat)
from_degree-degree sat h = (_, degree_lem sat h, from_degree_lem sat h)
