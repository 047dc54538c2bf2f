-- ===== src/Calendar/Queue.antt =====
-- crates/lord-calendar/src/queue.rs: the digests that wait for the next anchor. A digest of 32 bytes
-- is the number that the bytes write.
pub mod Drain
use lord.Prelude.{
  ℕ, zero, suc, ◌+◌, ◌-◌, Bool, true, false, Option, none, some, List, [], ◌∷◌, ◌++◌, length, take,
  drop, leb, min, ◌==◌, if◌then◌else◌,
}

pub record DigestQueue : Type 0 where
  pub pending : List ℕ

-- `slice::contains`
unfoldable pub contains : ℕ → List ℕ → Bool
contains digest [] = false
contains digest (d ∷ ds) = if d == digest then true else contains digest ds

-- `iter().position(|d| d == digest)`
unfoldable pub position : ℕ → List ℕ → Option ℕ
position digest [] = none
position digest (d ∷ ds) =
    let later : Option ℕ = (elim (position digest ds) [ none ↦ none | some i ↦ some (suc i) ]) in
    if d == digest then some 0 else later

-- `Vec::remove`, on an index in range
unfoldable pub remove : ℕ → List ℕ → List ℕ × List ℕ
remove index ds = (take 1 (drop index ds), take index ds ++ drop (index + 1) ds)

-- Whether the digest is new, and the queue after.
unfoldable pub enqueue : ℕ → DigestQueue → Bool × DigestQueue
enqueue digest queue =
    if contains digest queue.pending
    then (false, queue)
    else (true, record { pending = queue.pending ++ (digest ∷ []) })

unfoldable pub drain_batch : ℕ → DigestQueue → List ℕ × DigestQueue
drain_batch max queue =
    let n = min (length queue.pending) max in
    (take n queue.pending, record { pending = drop n queue.pending })

-- The round of the loop for a digest at a position.
unfoldable pub take_at : Option ℕ → List ℕ → DigestQueue → List ℕ × DigestQueue
take_at none batch queue = (batch, queue)
take_at (some index) batch queue =
    let r = remove index queue.pending in (batch ++ r.0, record { pending = r.1 })

-- The loop over `priority`.
unfoldable pub drain_priority : List ℕ → ℕ → List ℕ → DigestQueue → List ℕ × DigestQueue
drain_priority [] max batch queue = (batch, queue)
drain_priority (digest ∷ priority) max batch queue =
    let r = take_at (position digest queue.pending) batch queue in
    let rest = drain_priority priority max r.0 r.1 in
    if leb max (length batch) then (batch, queue) else rest

unfoldable pub drain_batch_prioritized : List ℕ → ℕ → DigestQueue → List ℕ × DigestQueue
drain_batch_prioritized priority max queue =
    let first = drain_priority priority max [] queue in
    let rest = drain_batch (max - length first.0) first.1 in (first.0 ++ rest.0, rest.1)
