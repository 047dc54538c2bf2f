-- ===== src/Ltp/Mempool/Sound.antt =====
-- The soundness of the mempool, operation by operation (crates/lord-ltp/src/mempool.rs).
use lord.Prelude.{
  ℕ, ◌-◌, ◌<◌, ◌≡◌, refl, inl, inr, Bool, true, false, [], ◌∷◌, ◌++◌, length, take, drop, leb, min,
  ◌==◌, if◌then◌else◌, arith, Bool-cases, Option-cases, length-append, length-drop,
}
use lord.Ltp.Chain.{LtpChain}
use lord.Ltp.Mempool
use lord.Ltp.Mempool.{
  LtpQueueKind, commitment, storage, market, LtpMempoolEntry, Entries, MempoolSnapshot, LtpMempool,
  Outcome, ok, err, after, queue, queue_mut, any_start, with_entries, retain, remove_first,
}
use lord.Ltp.Mempool.SoundQueue.{
  IsSoundQueue, IsSound, IsSound-queue, distinct-append, own-append, distinct-drop, own-drop,
  retain-IsSoundQueue, remove_first-IsSoundQueue,
}

-- A write to one queue keeps the others.
with_entries-IsSound :
    (kind : LtpQueueKind) (entries : Entries) (mempool : LtpMempool)
    → IsSoundQueue mempool.profile.max_depth kind entries
    → IsSound mempool
    → IsSound (with_entries kind entries mempool)
unfolding with_entries queue queue_mut
with_entries-IsSound commitment entries m h s = record {
  commitments = h;
  storages = s.storages;
  markets = s.markets;
}
with_entries-IsSound storage entries m h s = record {
  commitments = s.commitments;
  storages = h;
  markets = s.markets;
}
with_entries-IsSound market entries m h s = record {
  commitments = s.commitments;
  storages = s.storages;
  markets = h;
}

after-save :
    {A : Type 0} (saved : Bool) (a : A) (m : LtpMempool) → after (Mempool.save saved a m) ≡ m
unfolding Mempool.save
after-save true a m = refl
after-save false a m = refl

enqueue-IsSound :
    (saved : Bool) (entry : LtpMempoolEntry) (m : LtpMempool)
    → IsSound m
    → IsSound (after (Mempool.enqueue saved entry m))
unfolding Mempool.enqueue
enqueue-IsSound saved entry m s =
    let entries = queue entry.queue m.snapshot in
    let old = IsSound-queue entry.queue m s in
    elim (Bool-cases (any_start entry.start_digest entries)) [
      | inl e ↦ rw e s
      | inr e ↦ elim (Bool-cases (leb m.profile.max_depth (length entries))) [
        | inl full ↦ rw (e, full) s
        | inr room ↦
            rw (e, room)
              (rw (after-save saved true (with_entries entry.queue (entries ++ (entry ∷ [])) m)) (
                with_entries-IsSound entry.queue (entries ++ (entry ∷ [])) m
                  (record {
                    distinct = distinct-append entries entry old.distinct e;
                    shallow = omega (
                      arith,
                      length-append entries (entry ∷ []),
                      below m.profile.max_depth (length entries) room,
                    );
                    own = own-append entry.queue entries entry old.own refl;
                  })
                  s))
      ]
    ]
  where
    below : (a b : ℕ) → leb a b ≡ false → b < a
    below a b h = ground arith

drain-IsSound :
    (saved : Bool) (kind : LtpQueueKind) (max : ℕ) (m : LtpMempool)
    → IsSound m
    → IsSound (after (Mempool.drain saved kind max m))
unfolding Mempool.drain
drain-IsSound saved kind max m s =
    let entries = queue kind m.snapshot in
    let n = min (length entries) max in
    let old = IsSound-queue kind m s in
    let new =
      with_entries-IsSound kind (drop n entries) m
        (record {
          distinct = distinct-drop n entries old.distinct;
          shallow = omega (arith, length-drop n entries, old.shallow);
          own = own-drop kind n entries old.own;
        })
        s in
    elim (Bool-cases (length (take n entries) == 0)) [
      | inl e ↦ rw e new
      | inr e ↦
          rw e (rw (after-save saved (take n entries) (with_entries kind (drop n entries) m)) new)
    ]

after_if :
    {A : Type 0} (saved b : Bool) (a : A) (m : LtpMempool)
    → after (if b then Mempool.save saved a m else ok a m) ≡ m
after_if saved true a m = after-save saved a m
after_if saved false a m = refl

pub after-prune_expired :
    (saved : Bool) (now : ℕ) (m : LtpMempool)
    → after (Mempool.prune_expired saved now m)
      ≡ record m { snapshot = Mempool.retain_all (now - m.profile.ttl_secs) m.snapshot }
unfolding Mempool.prune_expired
after-prune_expired saved now m = after_if saved _ _ _

prune_expired-IsSound :
    (saved : Bool) (now : ℕ) (m : LtpMempool)
    → IsSound m
    → IsSound (after (Mempool.prune_expired saved now m))
unfolding Mempool.retain_all
prune_expired-IsSound saved now m s =
    let d = m.profile.max_depth in
    let c = now - m.profile.ttl_secs in
    rw (after-prune_expired saved now m) (record {
      commitments = retain-IsSoundQueue d c commitment m.snapshot.commitment s.commitments;
      storages = retain-IsSoundQueue d c storage m.snapshot.storage s.storages;
      markets = retain-IsSoundQueue d c market m.snapshot.market s.markets;
    })

remove_start_digest-IsSound :
    (saved : Bool) (kind : LtpQueueKind) (digest : ℕ) (m : LtpMempool)
    → IsSound m
    → IsSound (after (Mempool.remove_start_digest saved kind digest m))
unfolding Mempool.remove_start_digest
remove_start_digest-IsSound saved kind digest m s =
    elim (Option-cases (remove_first digest (queue kind m.snapshot))) [
      | inl e ↦ rw (after, e) s
      | inr (rest, e) ↦
          rw (after, e)
            (rw (after-save saved true (with_entries kind rest m)) (
              with_entries-IsSound kind rest m
                (remove_first-IsSoundQueue m.profile.max_depth digest kind (queue kind m.snapshot)
                  rest e (IsSound-queue kind m s))
                s))
    ]

fresh-IsSound : (chain : LtpChain) → IsSound (Mempool.fresh chain)
unfolding Mempool.fresh
fresh-IsSound chain = record {
  commitments = record { distinct = tt; shallow = omega arith; own = tt };
  storages = record { distinct = tt; shallow = omega arith; own = tt };
  markets = record { distinct = tt; shallow = omega arith; own = tt };
}

-- The mempools that operations lead to, whether or not the saves succeed.
pub data Reachable (chain : LtpChain) : LtpMempool → Type 0 where
  opened : Reachable chain (Mempool.fresh chain)
  enqueued :
      (saved : Bool) (entry : LtpMempoolEntry) {m : LtpMempool}
      → Reachable chain m
      → Reachable chain (after (Mempool.enqueue saved entry m))
  drained :
      (saved : Bool) (kind : LtpQueueKind) (max : ℕ) {m : LtpMempool}
      → Reachable chain m
      → Reachable chain (after (Mempool.drain saved kind max m))
  pruned :
      (saved : Bool) (now : ℕ) {m : LtpMempool}
      → Reachable chain m
      → Reachable chain (after (Mempool.prune_expired saved now m))
  removed :
      (saved : Bool) (kind : LtpQueueKind) (digest : ℕ) {m : LtpMempool}
      → Reachable chain m
      → Reachable chain (after (Mempool.remove_start_digest saved kind digest m))

-- However the operations follow each other, and whether or not their saves succeed, no queue holds
-- two entries with the same digest, an entry of another queue, or more entries than `max_depth`.
pub Reachable-IsSound : (chain : LtpChain) (m : LtpMempool) → Reachable chain m → IsSound m
Reachable-IsSound chain _ opened = fresh-IsSound chain
Reachable-IsSound chain _ (enqueued saved entry {m} r) =
    enqueue-IsSound saved entry m (Reachable-IsSound chain m r)
Reachable-IsSound chain _ (drained saved kind max {m} r) =
    drain-IsSound saved kind max m (Reachable-IsSound chain m r)
Reachable-IsSound chain _ (pruned saved now {m} r) =
    prune_expired-IsSound saved now m (Reachable-IsSound chain m r)
Reachable-IsSound chain _ (removed saved kind digest {m} r) =
    remove_start_digest-IsSound saved kind digest m (Reachable-IsSound chain m r)
