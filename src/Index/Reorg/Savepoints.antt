-- ===== src/Index/Reorg/Savepoints.antt =====
-- The savepoint that is returned to, and how many are kept.
use lord.Prelude.{
  ℕ, ◌-◌, ◌≤◌, ◌<◌, ◌≡◌, refl, ◌⊎◌, inl, inr, Bool, true, false, Option, none, some, List, [], ◌∷◌,
  leb, max, arith, Bool-cases, Option-cases, dec_lt,
}
use lord.Index.Reorg.{max_within, savepoint_height_for_reorg}

abbrev pub In : ℕ → List ℕ → Type 0
In x [] = ⊥
In x (y ∷ ys) = (x ≡ y) ⊎ In x ys

-- `none` where every savepoint is past the target, or else the last one that is not.
abbrev pub IsLatest : ℕ → List ℕ → Option ℕ → Type 0
IsLatest target savepoints none = (t : ℕ) → In t savepoints → target < t
IsLatest target savepoints (some s) =
    (s ≤ target) × In s savepoints × ((t : ℕ) → In t savepoints → t ≤ target → t ≤ s)

In-eq : (x y : ℕ) (zs : List ℕ) → x ≡ y → In x zs → In y zs
In-eq x y zs e i = rw e at i

skip :
    (target s : ℕ) (savepoints : List ℕ) (r : Option ℕ)
    → target < s
    → IsLatest target savepoints r
    → IsLatest target (s ∷ savepoints) r
skip target s savepoints none h f = λ t m. elim m [ inl e ↦ omega arith | inr i ↦ f t i ]
skip target s savepoints (some r) h (le, i, f) =
    (le, inr i, λ t m k. elim m [ inl e ↦ absurd (omega arith) | inr j ↦ f t j k ])

keep_none :
    (target s : ℕ) (savepoints : List ℕ)
    → s ≤ target
    → IsLatest target savepoints none
    → IsLatest target (s ∷ savepoints) (some s)
keep_none target s savepoints h f =
    (h, inl refl, λ t m k. elim m [ inl e ↦ omega arith | inr i ↦ absurd (past t i k) ])
  where
    past : (t : ℕ) → In t savepoints → t ≤ target → ⊥
    past t i k = omega (arith, f t i)

keep_some :
    (target s r : ℕ) (savepoints : List ℕ)
    → s ≤ target
    → IsLatest target savepoints (some r)
    → IsLatest target (s ∷ savepoints) (some (max s r))
keep_some target s r savepoints h (le, i, f) =
    (omega arith, found, λ t m k. elim m [ inl e ↦ omega arith | inr j ↦ omega (arith, f t j k) ])
  where
    found : In (max s r) (s ∷ savepoints)
    found = elim (dec_lt s r) [
      | yes lt ↦ inr (In-eq r (max s r) savepoints (omega arith) i)
      | no ge ↦ inl (omega arith)
    ]

latest :
    (target : ℕ) (savepoints : List ℕ) → IsLatest target savepoints (max_within target savepoints)
unfolding max_within
latest target [] = λ t m. absurd m
latest target (s ∷ savepoints) = elim (Bool-cases (leb s target)) [
  | inr p ↦
      rw p (
        skip target s savepoints (max_within target savepoints) (past p) (latest target savepoints))
  | inl p ↦ elim (Option-cases (max_within target savepoints)) [
    | inl e ↦
        rw (p, e) (keep_none target s savepoints (within p) (rw e at (latest target savepoints)))
    | inr (r, e) ↦
        rw (p, e) (keep_some target s r savepoints (within p) (rw e at (latest target savepoints)))
  ]
]
  where
    past : leb s target ≡ false → target < s
    past p = ground arith

    within : leb s target ≡ true → s ≤ target
    within p = ground arith

-- The savepoint that is chosen for a reorganisation is the latest that is not past the fork's height,
-- and there is none exactly where all savepoints are past it.
pub savepoint_height_for_reorg-IsLatest :
    (savepoints : List ℕ) (height depth : ℕ)
    → IsLatest (height - depth) savepoints (savepoint_height_for_reorg savepoints height depth)
unfolding savepoint_height_for_reorg
savepoint_height_for_reorg-IsLatest savepoints height depth = latest (height - depth) savepoints
