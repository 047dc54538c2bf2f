-- ===== src/Storage/OtsOrder/Ends.antt =====
-- The walk through a proof's steps ends.
use lord.Prelude.{
  ℕ, zero, suc, ◌+◌, ◌≤◌, ◌<◌, ltb, some, List, [], ◌∷◌, ◌++◌, ◌≡◌, ◌≢◌, sym, arith, Bool-cases,
  Option-cases, inl, inr,
}
use mathlib.Core.Option.{some-injective}
use lord.Storage.OtsOrder.{
  Step, Steps, fork, op, attestation, nil, cons, diverged, Queue, fork_entries, first_entry,
  push_back, visit, walk, size, size_all, order_key_from_timestamp,
}

-- The steps that the queue still leads to
weight : Queue → ℕ
weight [] = 0
weight ((step, path) ∷ queue) = size step + weight queue

weight-append : (queue more : Queue) → weight (queue ++ more) ≡ weight queue + weight more
unfolding weight
weight-append [] more = omega arith
weight-append ((step, path) ∷ queue) more = omega (arith, weight-append queue more)

pub fork_entries-cons :
    (index : ℕ) (child : Step) (rest : Steps) (path : List ℕ) (entries : Queue)
    → fork_entries index (cons child rest) path ≡ some entries
    → (later : Queue) × (fork_entries (suc index) rest path ≡ some later)
      × (entries ≡ (child, path ++ index ∷ []) ∷ later)
unfolding fork_entries
fork_entries-cons index child rest path entries h = elim (Bool-cases (ltb index 256)) [
  | inl fits ↦ elim (Option-cases (fork_entries (suc index) rest path)) [
    | inl over ↦ let h' = rw (fits, over) at h in absurd cc
    | inr (later, f) ↦ (later, f, sym (some-injective _ _ (rw (fits, f) at h)))
  ]
  | inr large ↦ let h' = rw large at h in absurd cc
]

weight-fork_entries :
    (index : ℕ) (next : Steps) (path : List ℕ) (more : Queue)
    → fork_entries index next path ≡ some more
    → weight more ≤ size_all next
unfolding fork_entries weight size_all
weight-fork_entries index nil path more h = ground arith
weight-fork_entries index (cons child rest) path more h =
    let (later, f, e) = fork_entries-cons index child rest path more h in
    rw e (omega (arith, weight-fork_entries (suc index) rest path later f))

weight-first_entry : (next : Steps) (path : List ℕ) → weight (first_entry next path) ≤ size_all next
unfolding first_entry weight size_all
weight-first_entry nil path = omega arith
weight-first_entry (cons step rest) path = omega arith

walk-ne-diverged : (fuel : ℕ) (queue : Queue) → weight queue < fuel → walk fuel queue ≢ diverged
unfolding walk visit push_back weight size
walk-ne-diverged zero queue h e = elim h [ ]
walk-ne-diverged (suc fuel) [] h e = absurd cc
walk-ne-diverged (suc fuel) ((attestation output next, path) ∷ queue) h e = absurd cc
walk-ne-diverged (suc fuel) ((op output next, path) ∷ queue) h e =
    walk-ne-diverged fuel (queue ++ first_entry next path)
      (omega (arith, weight-append queue (first_entry next path), weight-first_entry next path)) e
walk-ne-diverged (suc fuel) ((fork output next, path) ∷ queue) h e =
    elim (Option-cases (fork_entries 0 next path)) [
      | inl over ↦ let e' = rw over at e in absurd cc
      | inr (more, f) ↦
          walk-ne-diverged fuel (queue ++ more)
            (omega (arith, weight-append queue more, weight-fork_entries 0 next path more f))
            (rw f at e)
    ]

-- The walk ends on every tree of steps: the loop never runs out of its fuel, one more than the steps.
pub order_key_from_timestamp-ne-diverged : (step : Step) → order_key_from_timestamp step ≢ diverged
unfolding order_key_from_timestamp weight
order_key_from_timestamp-ne-diverged step =
    walk-ne-diverged (suc (size step)) ((step, []) ∷ []) (omega arith)
