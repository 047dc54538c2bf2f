-- ===== src/Calendar/Merkle/Tree.antt =====
-- One level of the tree from the one below it.
use lord.Prelude.{
  ℕ, zero, suc, ◌+◌, ◌-◌, ◌/◌, ◌%◌, ◌≡◌, refl, inl, inr, false, some, List, [], ◌∷◌, ◌++◌, length,
  get_elem?, ◌==◌, if◌then◌else◌, arith, Bool-cases, ==_iff,
}
use lord.Calendar.Merkle.{Digest, last, pad, pairs, sibling_idx}

abbrev pub padded : List Digest → List Digest
padded [] = []
padded (a ∷ []) = a ∷ a ∷ []
padded (a ∷ b ∷ level) = a ∷ b ∷ padded level

-- The level above.
abbrev pub above : (Digest → Digest → Digest) → List Digest → List Digest
above cat [] = []
above cat (a ∷ []) = cat a a ∷ []
above cat (a ∷ b ∷ level) = cat a b ∷ above cat level

pub length-above :
    (cat : Digest → Digest → Digest) (level : List Digest)
    → length (above cat level) ≡ (length level + 1) / 2
length-above cat [] = refl
length-above cat (a ∷ []) = refl
length-above cat (a ∷ b ∷ level) = omega (arith, length-above cat level)

two_more : (n : ℕ) → suc (suc n) % 2 ≡ n % 2
two_more n = omega arith

padded_even : (level : List Digest) → length level % 2 ≡ 0 → padded level ≡ level
padded_even [] h = refl
padded_even (a ∷ []) h = absurd (omega arith)
padded_even (a ∷ b ∷ level) h = rw (padded_even level (omega (arith, two_more (length level))))

padded_odd :
    (level : List Digest)
    → length level % 2 ≡ 1
    → (d : Digest) × (last level ≡ some d) × (padded level ≡ level ++ (d ∷ []))
unfolding last
padded_odd [] h = absurd (omega arith)
padded_odd (a ∷ []) h = (a, refl, refl)
padded_odd (a ∷ b ∷ []) h = absurd (omega arith)
padded_odd (a ∷ b ∷ c ∷ level) h =
    let (d, e, f) = padded_odd (c ∷ level) (omega (arith, two_more (length (c ∷ level)))) in
    (d, e, rw f)

pub pad-padded : (level : List Digest) → pad level ≡ some (padded level)
unfolding pad
pad-padded level = elim (Bool-cases (length level % 2 == 1)) [
  | inl e ↦ let (d, l, p) = padded_odd level ((==_iff (length level % 2) 1).0 e) in rw (e, l, p)
  | inr e ↦ rw (e, padded_even level (even_of e))
]
  where
    even_of : (length level % 2 == 1) ≡ false → length level % 2 ≡ 0
    even_of e = ground arith

pub pairs-padded :
    (cat : Digest → Digest → Digest) (level : List Digest)
    → pairs cat (padded level) ≡ some (above cat level)
unfolding pairs
pairs-padded cat [] = refl
pairs-padded cat (a ∷ []) = refl
pairs-padded cat (a ∷ b ∷ level) = rw (pairs-padded cat level)

-- A digest and its sibling are joined by the digest above.
abbrev pub join : (Digest → Digest → Digest) → ℕ → Digest → Digest → Digest
join cat idx x y = if idx % 2 == 0 then cat x y else cat y x

pub sibling_lem :
    (cat : Digest → Digest → Digest) (level : List Digest) (i : ℕ) (x : Digest)
    → get_elem? level i ≡ some x
    → (y : Digest) × (get_elem? (padded level) (sibling_idx i) ≡ some y)
      × (get_elem? (above cat level) (i / 2) ≡ some (join cat i x y))
unfolding sibling_idx
sibling_lem cat [] i x h = absurd cc
sibling_lem cat (a ∷ []) zero x h = (a, refl, ground arith)
sibling_lem cat (a ∷ []) (suc i) x h = absurd cc
sibling_lem cat (a ∷ b ∷ level) zero x h = (b, refl, ground arith)
sibling_lem cat (a ∷ b ∷ level) (suc zero) x h = (a, refl, ground arith)
sibling_lem cat (a ∷ b ∷ level) (suc (suc i)) x h =
    let (y, s, j) = sibling_lem cat level i x h in (y, rw (further i) s, rw (two_more i, half i) j)
  where
    half : (n : ℕ) → suc (suc n) / 2 ≡ suc (n / 2)
    half n = omega arith

    further :
        (n : ℕ)
        → (if suc (suc n) % 2 == 0 then suc (suc n) + 1 else suc (suc n) - 1)
          ≡ suc (suc (if n % 2 == 0 then n + 1 else n - 1))
    further n = ground arith
