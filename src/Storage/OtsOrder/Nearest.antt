-- ===== src/Storage/OtsOrder/Nearest.antt =====
-- The walk finds an attestation that the fewest steps lead to: the argument over the queue.
use lord.Prelude.{
  ℕ, zero, suc, ◌≤◌, List, [], ◌∷◌, ◌++◌, ◌≡◌, ◌⊎◌, inl, inr, refl, sym, ap, ◌∙◌, arith,
  Option-cases, here, there, In-append, In-append_left, In-append_right,
}
use mathlib.Core.List.{append_assoc, append-nil}
use lord.Storage.OtsOrder.{
  Step, Steps, fork, op, attestation, key, Queue, no_attestation_sentinel, fork_entries,
  first_entry, push_back, visit, walk, order_key_from_timestamp,
}
use lord.Storage.OtsOrder.First.{
  Reaches, attested, InQueue, Leads, NoSooner, Bare, Found, IsNext, op-IsNext, fork-IsNext,
}

in_cons :
    (step first_step : Step) (path first_path : List ℕ) (queue : Queue)
    → InQueue step path ((first_step, first_path) ∷ queue)
    → ((first_step ≡ step) × (first_path ≡ path)) ⊎ InQueue step path queue
in_cons _ first_step _ first_path queue (here _) = inl (refl, refl)
in_cons step first_step path first_path queue (there _ _ m) = inr m

module _ (step : Step) (path : List ℕ) (near far more : Queue) (next : IsNext step path more) where
  Bare-next : Bare near → Bare (far ++ more) → Bare ((step, path) ∷ near) × Bare far
  Bare-next near_bare rest_bare = (
    λ s p below d m r. elim (in_cons s step p path near m) [
      | inl (same, _) ↦
          let (child, child_path, below', d', m', r', _) =
            next.complete below d (rw (← same) at r) in
          rest_bare child child_path below' d' (In-append_right _ far more m') r'
      | inr old ↦ near_bare s p below d old r
    ],
    λ s p below d m r. rest_bare s p below d (In-append_left _ far more m) r,
  )

  NoSooner-next :
      (depth : ℕ)
      → NoSooner near 0 depth
      → NoSooner (far ++ more) 1 depth
      → NoSooner ((step, path) ∷ near) 0 depth × NoSooner far 1 depth
  NoSooner-next depth near_sooner rest_sooner = (
    λ s p below d m r. elim (in_cons s step p path near m) [
      | inl (same, _) ↦
          let (child, child_path, below', d', m', r', e) =
            next.complete below d (rw (← same) at r) in
          omega
            (arith, rest_sooner child child_path below' d' (In-append_right _ far more m') r', e)
      | inr old ↦ near_sooner s p below d old r
    ],
    λ s p below d m r. rest_sooner s p below d (In-append_left _ far more m) r,
  )

  Leads-next :
      (k : List ℕ) (depth : ℕ)
      → Leads near k depth ⊎ ((d : ℕ) × (depth ≡ suc d) × Leads (far ++ more) k d)
      → Leads ((step, path) ∷ near) k depth ⊎ ((d : ℕ) × (depth ≡ suc d) × Leads far k d)
  Leads-next k depth (inl (s, p, below, m, r, e)) =
      inl (s, p, below, there (step, path) near m, r, e)
  Leads-next k depth (inr (d, is, (s, p, below, m, r, e))) = elim (In-append _ far more m) [
    | inl old ↦ inr (d, is, (s, p, below, old, r, e))
    | inr new ↦
        let (below', r', f) = next.sound s p below d new r in
        inl (step, path, below', here near, rw is r', e ∙ f)
  ]

  Found-next : (k : List ℕ) → Found near (far ++ more) k → Found ((step, path) ∷ near) far k
  Found-next k (inl (is, near_bare, rest_bare)) =
      let bare = Bare-next near_bare rest_bare in inl (is, bare.0, bare.1)
  Found-next k (inr (depth, leads, near_sooner, rest_sooner)) =
      let sooner = NoSooner-next depth near_sooner rest_sooner in
      inr (depth, Leads-next k depth leads, sooner.0, sooner.1)

-- The entries one step behind come to the front.
Found-turn : (far : Queue) (k : List ℕ) → Found far [] k → Found [] far k
Found-turn far k (inl (is, far_bare, _)) = inl (is, (λ s p below d m r. elim m [ ]), far_bare)
Found-turn far k (inr (depth, inl leads, sooner, _)) = inr (
  suc depth,
  inr (depth, refl, leads),
  (λ s p below d m r. elim m [ ]),
  λ s p below d m r. omega (arith, sooner s p below d m r),
)
Found-turn far k (inr (depth, inr (d, is, (s, p, below, m, r, e)), sooner, _)) = elim m [ ]

Found-leaf :
    (output : List ℕ) (next : Steps) (path k : List ℕ) (near far : Queue)
    → path ≡ k
    → Found ((attestation output next, path) ∷ near) far k
Found-leaf output next path k near far e = inr (
  0,
  inl (
    attestation output next,
    path,
    [],
    here near,
    attested output next,
    sym e ∙ sym (append-nil path),
  ),
  (λ s p below d m r. omega arith),
  λ s p below d m r. omega arith,
)

-- A round takes the first of the near entries.
module _ (fuel : ℕ)
    (ih : (near far : Queue) (k : List ℕ)
      → walk fuel (near ++ far) ≡ key k
      → Found near far k) where
  pushed :
      (step : Step) (path : List ℕ) (near far more : Queue) (k : List ℕ)
      → IsNext step path more
      → walk fuel ((near ++ far) ++ more) ≡ key k
      → Found ((step, path) ∷ near) far k
  pushed step path near far more k next h =
      Found-next step path near far more next k
        (ih near (far ++ more) k (rw (append_assoc near far more) at h))

  round :
      (step : Step) (path : List ℕ) (near far : Queue) (k : List ℕ)
      → walk (suc fuel) ((step, path) ∷ (near ++ far)) ≡ key k
      → Found ((step, path) ∷ near) far k
  unfolding walk visit push_back
  round (attestation output next) path near far k h = Found-leaf output next path k near far cc
  round (op output next) path near far k h =
      pushed (op output next) path near far (first_entry next path) k (op-IsNext output next path) h
  round (fork output next) path near far k h = elim (Option-cases (fork_entries 0 next path)) [
    | inl over ↦ let h' = rw over at h in absurd cc
    | inr (more, f) ↦
        pushed (fork output next) path near far more k (fork-IsNext output next path more f)
          (rw f at h)
  ]

walk-Found :
    (fuel : ℕ) (near far : Queue) (k : List ℕ) → walk fuel (near ++ far) ≡ key k → Found near far k
unfolding walk
walk-Found zero near far k h = absurd cc
walk-Found (suc fuel) [] [] k h =
    inl (cc, (λ s p below d m r. elim m [ ]), λ s p below d m r. elim m [ ])
walk-Found (suc fuel) [] ((step, path) ∷ far) k h =
    Found-turn ((step, path) ∷ far) k
      (round fuel (walk-Found fuel) step path far [] k (rw (append-nil far) h))
walk-Found (suc fuel) ((step, path) ∷ near) far k h =
    round fuel (walk-Found fuel) step path near far k h

root_leads :
    (step s : Step) (path below k : List ℕ) (depth : ℕ)
    → InQueue s path ((step, []) ∷ [])
    → Reaches s below depth
    → k ≡ path ++ below
    → Reaches step k depth
root_leads step s path below k depth m r e = elim (in_cons s step path [] [] m) [
  | inl (same, start) ↦
      let is_below : k ≡ below = e ∙ ap (λ (p : List ℕ). p ++ below) (sym start) in
      rw (is_below, same) r
  | inr old ↦ elim old [ ]
]

-- A key is the sentinel where no attestation is reached from the first step, and else the path to an
-- attestation that no other one is reached in fewer steps than.
pub order_key_from_timestamp-nearest :
    (step : Step) (k : List ℕ)
    → order_key_from_timestamp step ≡ key k
    → ((k ≡ no_attestation_sentinel) × ((below : List ℕ) (d : ℕ) → ¬ Reaches step below d))
      ⊎ ((depth : ℕ) × Reaches step k depth
          × ((below : List ℕ) (d : ℕ) → Reaches step below d → depth ≤ d))
unfolding order_key_from_timestamp
order_key_from_timestamp-nearest step k h = elim (walk-Found _ ((step, []) ∷ []) [] k h) [
  | inl (is, bare, _) ↦ inl (is, λ below d r. bare step [] below d (here []) r)
  | inr (depth, leads, sooner, _) ↦ inr (
    depth,
    elim leads [
      | inl (s, p, below, m, r, e) ↦ root_leads step s p below k depth m r e
      | inr (d, is, (s, p, below, m, r, e)) ↦ elim m [ ]
    ],
    λ below d r. omega (arith, sooner step [] below d (here []) r),
  )
]
