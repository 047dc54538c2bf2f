-- ===== src/Calendar/Queue/Drain.antt =====
-- A drain moves digests from the queue to the batch: none is lost and none is made up.
use mathlib.Core.List.Perm
use mathlib.Core.List.{Perm, perm_middle, append_assoc}
use lord.Prelude.{
  ℕ, zero, suc, ◌+◌, ◌-◌, ◌≤◌, ◌<◌, ◌≡◌, inl, inr, false, Option, none, some, List, [], ◌∷◌, ◌++◌,
  length, take, drop, leb, min, arith, Bool-cases, length-append, length-take, take-append-drop,
}
use lord.Prelude.Perm.{length-Perm}
use lord.Calendar.Queue.{
  DigestQueue, position, remove, drain_batch, take_at, drain_priority, drain_batch_prioritized,
}

remove-Perm : (i : ℕ) (ds : List ℕ) → Perm ((remove i ds).0 ++ (remove i ds).1) ds
unfolding remove
remove-Perm zero [] = Perm.refl []
remove-Perm zero (d ∷ ds) = Perm.refl (d ∷ ds)
remove-Perm (suc i) [] = let e : suc i + 1 ≡ suc (i + 1) = omega arith in rw e (Perm.refl [])
remove-Perm (suc i) (d ∷ ds) =
    let e : suc i + 1 ≡ suc (i + 1) = omega arith in
    rw e (
      Perm.trans (perm_middle (take 1 (drop i ds)) (take i ds ++ drop (i + 1) ds))
        (Perm.cons d (remove-Perm i ds)))

take_at-Perm :
    (p : Option ℕ) (batch : List ℕ) (queue : DigestQueue)
    → Perm ((take_at p batch queue).0 ++ (take_at p batch queue).1.pending) (batch ++ queue.pending)
unfolding take_at
take_at-Perm none batch queue = Perm.refl (batch ++ queue.pending)
take_at-Perm (some i) batch queue =
    rw append_assoc (Perm.append_left batch (remove-Perm i queue.pending))

length-take_at :
    (p : Option ℕ) (batch : List ℕ) (queue : DigestQueue)
    → length (take_at p batch queue).0 ≤ length batch + 1
unfolding take_at remove
length-take_at none batch queue = omega arith
length-take_at (some i) batch queue = omega (
  arith,
  length-append batch (take 1 (drop i queue.pending)),
  length-take 1 (drop i queue.pending),
)

drain_priority-Perm :
    (priority : List ℕ) (max : ℕ) (batch : List ℕ) (queue : DigestQueue)
    → Perm
        ((drain_priority priority max batch queue).0
          ++ (drain_priority priority max batch queue).1.pending)
        (batch ++ queue.pending)
unfolding drain_priority
drain_priority-Perm [] max batch queue = Perm.refl (batch ++ queue.pending)
drain_priority-Perm (digest ∷ priority) max batch queue =
    let r = take_at (position digest queue.pending) batch queue in
    let rest =
      Perm.trans (drain_priority-Perm priority max r.0 r.1)
        (take_at-Perm (position digest queue.pending) batch queue) in
    elim (Bool-cases (leb max (length batch))) [
      | inl e ↦ rw e (Perm.refl (batch ++ queue.pending))
      | inr e ↦ rw e rest
    ]

length-drain_priority :
    (priority : List ℕ) (max : ℕ) (batch : List ℕ) (queue : DigestQueue)
    → length batch ≤ max
    → length (drain_priority priority max batch queue).0 ≤ max
unfolding drain_priority
length-drain_priority [] max batch queue h = h
length-drain_priority (digest ∷ priority) max batch queue h =
    let r = take_at (position digest queue.pending) batch queue in
    elim (Bool-cases (leb max (length batch))) [
      | inl e ↦ rw e h
      | inr e ↦ rw e (
          length-drain_priority priority max r.0 r.1
            (omega (arith, length-take_at (position digest queue.pending) batch queue, le_of e)))
    ]
  where
    le_of : leb max (length batch) ≡ false → length batch < max
    le_of e = ground arith

drain_batch-append :
    (max : ℕ) (queue : DigestQueue)
    → (drain_batch max queue).0 ++ (drain_batch max queue).1.pending ≡ queue.pending
unfolding drain_batch
drain_batch-append max queue = take-append-drop (min (length queue.pending) max) queue.pending

length-drain_batch :
    (max : ℕ) (queue : DigestQueue)
    → length (drain_batch max queue).0 ≡ min max (length queue.pending)
unfolding drain_batch
length-drain_batch max queue =
    omega (arith, length-take (min (length queue.pending) max) queue.pending)

-- Whatever the priorities, the batch and what stays pending are together the digests that were
-- pending, each as often as before, and the batch has `max` digests, or all where there are fewer.
pub drain_batch_prioritized-Perm :
    (priority : List ℕ) (max : ℕ) (queue : DigestQueue)
    → Perm
        ((drain_batch_prioritized priority max queue).0
          ++ (drain_batch_prioritized priority max queue).1.pending)
        queue.pending
      × (length (drain_batch_prioritized priority max queue).0 ≡ min max (length queue.pending))
unfolding drain_batch_prioritized
drain_batch_prioritized-Perm priority max queue =
    let first = drain_priority priority max [] queue in
    let p = drain_priority-Perm priority max [] queue in
    let n = length-drain_priority priority max [] queue (omega arith) in
    let left = max - length first.0 in
    (
      rw (append_assoc first.0, drain_batch-append left first.1) p,
      omega (
        arith,
        n,
        length-append first.0 (drain_batch left first.1).0,
        length-drain_batch left first.1,
        length-append first.0 first.1.pending,
        length-Perm p,
      ),
    )
