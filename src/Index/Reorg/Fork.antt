-- ===== src/Index/Reorg/Fork.antt =====
-- The fork that is found is the nearest block on which both chains agree.
use lord.Prelude.{
  ℕ, zero, suc, ◌+◌, ◌-◌, ◌%◌, ◌^◌, ltb, ◌≤◌, ◌<◌, ◌≡◌, refl, ap, ◌∙◌, ◌≢◌, ◌⊎◌, inl, inr, true,
  false, Option, none, some, arith, Bool-cases, Option-cases, ◌==◌, ==_iff, ℕ_discrete,
}
use lord.Ordinals.Constants.{add_u32, mul_u32, sub_u32}
use lord.Ordinals.Sat.{to_u32}
use lord.Index.Reorg.{
  Settings, Chains, Detected, fine, recoverable, unrecoverable, agrees, search_fork,
  block_hash_in_txn, checked_sub, detect_reorg, max_recoverable_reorg_depth, rem, search_below,
}

-- What a result of the search from a depth on says of the depths below `limit`.
abbrev pub IsNearest : Chains → ℕ → ℕ → ℕ → Detected → Type 0
IsNearest chains height from limit (recoverable h d) =
    (h ≡ height)
    × (from ≤ d)
    × (d < limit)
    × (agrees chains height d ≡ true)
    × ((k : ℕ) → from ≤ k → k < d → agrees chains height k ≡ false)
IsNearest chains height from limit unrecoverable =
    (k : ℕ) → from ≤ k → k < limit → agrees chains height k ≡ false
IsNearest chains height from limit fine = ⊥

earlier :
    (chains : Chains) (height from limit : ℕ) (r : Detected)
    → agrees chains height from ≡ false
    → IsNearest chains height (from + 1) limit r
    → IsNearest chains height from limit r
earlier chains height from limit fine a h = h
earlier chains height from limit (recoverable g d) a (e, l, m, t, f) = (
  e,
  omega arith,
  m,
  t,
  λ k p q. elim (ℕ_discrete k from) [ yes same ↦ rw same a | no other ↦ f k (next k p other) q ],
)
  where
    next : (k : ℕ) → from ≤ k → k ≢ from → from + 1 ≤ k
    next k p other = omega arith
earlier chains height from limit unrecoverable a f =
    λ k p q. elim (ℕ_discrete k from) [ yes same ↦ rw same a | no other ↦ f k (next k p other) q ]
  where
    next : (k : ℕ) → from ≤ k → k ≢ from → from + 1 ≤ k
    next k p other = omega arith

search_fork-IsNearest :
    (chains : Chains) (height rounds depth : ℕ)
    → IsNearest chains height depth (depth + rounds) (search_fork chains height rounds depth)
unfolding search_fork
search_fork-IsNearest chains height zero depth = λ k p q. absurd (omega arith)
search_fork-IsNearest chains height (suc rounds) depth =
    elim (Bool-cases (agrees chains height depth)) [
      | inl a ↦ rw a (refl, omega arith, omega arith, a, λ k p q. absurd (omega arith))
      | inr a ↦
          let e : depth + 1 + rounds ≡ depth + suc rounds = omega arith in
          rw a (
            earlier chains height depth (depth + suc rounds)
              (search_fork chains height rounds (depth + 1)) a
              (rw e at (search_fork-IsNearest chains height rounds (depth + 1))))
    ]

search_below-IsNearest :
    (chains : Chains) (height limit : ℕ)
    → (r : Detected) × (search_below chains height (some limit) ≡ some r)
      × IsNearest chains height 1 limit r
unfolding search_below search_fork
search_below-IsNearest chains height zero = (unrecoverable, refl, λ k p q. absurd (omega arith))
search_below-IsNearest chains height (suc limit) =
    let one_less : suc limit - 1 ≡ limit = omega arith in
    let one_more : 1 + limit ≡ suc limit = omega arith in
    (
      search_fork chains height limit 1,
      rw one_less refl,
      rw one_more at (search_fork-IsNearest chains height limit 1),
    )

-- The settings with which the search for a fork panics.
abbrev pub Unusable : Settings → Type 0
Unusable settings =
    (settings.savepoint_interval ≡ 0)
    ⊎ ((2 ^ 32 ≤ settings.savepoint_interval) ⊎ (2 ^ 32 ≤ settings.max_savepoints))

-- The limit in terms of the settings, with the wraps of a release build.
abbrev pub limit_of : Settings → ℕ → ℕ
limit_of settings height =
    add_u32 (mul_u32 (sub_u32 settings.max_savepoints 1) settings.savepoint_interval)
      (height % settings.savepoint_interval)

max_recoverable_reorg_depth_cases :
    (settings : Settings) (height : ℕ)
    → ((max_recoverable_reorg_depth settings height ≡ none) × Unusable settings)
      ⊎ ((max_recoverable_reorg_depth settings height ≡ some (limit_of settings height))
          × ¬ Unusable settings)
unfolding max_recoverable_reorg_depth to_u32 rem
max_recoverable_reorg_depth_cases settings height =
    elim (Bool-cases (ltb settings.savepoint_interval (2 ^ 32))) [
      | inr a ↦ inl (rw a refl, inr (inl (ground arith)))
      | inl a ↦ elim (Bool-cases (ltb settings.max_savepoints (2 ^ 32))) [
        | inr b ↦ inl (rw (a, b) refl, inr (inr (ground arith)))
        | inl b ↦ elim (Bool-cases (settings.savepoint_interval == 0)) [
          | inl z ↦ inl (rw (a, b, z) refl, inl (ground arith))
          | inr z ↦ inr (rw (a, b, z) refl, usable a b z)
        ]
      ]
    ]
  where
    usable :
        ltb settings.savepoint_interval (2 ^ 32) ≡ true
        → ltb settings.max_savepoints (2 ^ 32) ≡ true
        → (settings.savepoint_interval == 0) ≡ false
        → ¬ Unusable settings
    usable a b z (inl e) = ground arith
    usable a b z (inr (inl e)) = ground arith
    usable a b z (inr (inr e)) = ground arith

-- What the result of the search is, where the index and the node disagree on the block before.
abbrev pub IsForkSearch : Settings → Chains → ℕ → Option Detected → Type 0
IsForkSearch settings chains height found =
    ((found ≡ none) × Unusable settings)
    ⊎ (¬ Unusable settings
        × ((r : Detected) × (found ≡ some r)
            × IsNearest chains height 1 (limit_of settings height) r))

search_below-IsForkSearch :
    (settings : Settings) (chains : Chains) (height : ℕ)
    → IsForkSearch settings chains height
        (search_below chains height (max_recoverable_reorg_depth settings height))
unfolding search_below
search_below-IsForkSearch settings chains height =
    elim (max_recoverable_reorg_depth_cases settings height) [
      | inl (e, bad) ↦ inl (rw e refl, bad)
      | inr (e, good) ↦
          let (r, q, nearest) = search_below-IsNearest chains height (limit_of settings height) in
          inr (good, (r, rw e q, nearest))
    ]

-- Where the index has no hash for the block before, or has the block's parent there, the result is
-- fine. Else the search panics exactly where the interval between savepoints is 0, or it or the count of
-- savepoints is no `u32`; with all other settings the reorganisation is recoverable at the least
-- depth from 1 at which the index and the node have the same hash, where that depth is below the limit
-- that the settings give, or it is unrecoverable, and they have different hashes at every depth from 1
-- below the limit.
pub detect_reorg-IsNearest :
    (settings : Settings) (chains : Chains) (prev_blockhash height : ℕ)
    → ((detect_reorg settings chains prev_blockhash height ≡ some fine)
        × ((block_hash_in_txn chains (checked_sub height 1) ≡ none)
            ⊎ (block_hash_in_txn chains (checked_sub height 1) ≡ some prev_blockhash)))
      ⊎ (((hash : ℕ) × (block_hash_in_txn chains (checked_sub height 1) ≡ some hash)
            × (hash ≢ prev_blockhash))
          × IsForkSearch settings chains height
              (detect_reorg settings chains prev_blockhash height))
unfolding detect_reorg
detect_reorg-IsNearest settings chains prev_blockhash height =
    elim (Option-cases (block_hash_in_txn chains (checked_sub height 1))) [
      | inl e ↦ inl (rw (detect_reorg, e) refl, inl e)
      | inr (hash, e) ↦ elim (Bool-cases (hash == prev_blockhash)) [
        | inl q ↦
            inl (rw (detect_reorg, e, q) refl, inr (e ∙ ap some ((==_iff hash prev_blockhash).0 q)))
        | inr q ↦ inr (
          (hash, e, differ hash q),
          rw (detect_reorg, e, q) (search_below-IsForkSearch settings chains height),
        )
      ]
    ]
  where
    differ : (hash : ℕ) → (hash == prev_blockhash) ≡ false → hash ≢ prev_blockhash
    differ hash q = ground arith
