-- ===== src/Ltp/Mempool/Prune.antt =====
-- Entries past their time go, the others stay in order.
use lord.Prelude.{
  ℕ, ◌+◌, ◌-◌, ◌≤◌, ◌<◌, ◌≡◌, inl, inr, Bool, true, false, [], ◌∷◌, length, leb, arith, Bool-cases,
}
use lord.Ltp.Mempool.{
  LtpMempoolEntry, Entries, LtpMempool, MempoolSnapshot, after, retain, retain_all, prune_expired,
}
use lord.Ltp.Mempool.Sound.{after-prune_expired}

-- `kept` is `entries` without the entries enqueued before the cutoff, in the same order.
pub data IsPruned (cutoff : ℕ) : Entries → Entries → Type 0 where
  nothing : IsPruned cutoff [] []
  keep :
      (e : LtpMempoolEntry) {entries kept : Entries}
      → cutoff ≤ e.enqueued_at
      → IsPruned cutoff entries kept
      → IsPruned cutoff (e ∷ entries) (e ∷ kept)
  leave :
      (e : LtpMempoolEntry) {entries kept : Entries}
      → e.enqueued_at < cutoff
      → IsPruned cutoff entries kept
      → IsPruned cutoff (e ∷ entries) kept

retain-IsPruned : (cutoff : ℕ) (entries : Entries) → IsPruned cutoff entries (retain cutoff entries)
unfolding retain
retain-IsPruned cutoff [] = nothing
retain-IsPruned cutoff (e ∷ entries) = elim (Bool-cases (leb cutoff e.enqueued_at)) [
  | inl h ↦ rw h (keep e (within h) (retain-IsPruned cutoff entries))
  | inr h ↦ rw h (leave e (past h) (retain-IsPruned cutoff entries))
]
  where
    within : leb cutoff e.enqueued_at ≡ true → cutoff ≤ e.enqueued_at
    within h = ground arith

    past : leb cutoff e.enqueued_at ≡ false → e.enqueued_at < cutoff
    past h = ground arith

length-retain : (cutoff : ℕ) (entries : Entries) → length (retain cutoff entries) ≤ length entries
unfolding retain
length-retain cutoff [] = omega arith
length-retain cutoff (e ∷ entries) = ground (arith, length-retain cutoff entries)

abbrev pub total : MempoolSnapshot → ℕ
total s = length s.commitment + length s.storage + length s.market

pub record Pruned (cutoff : ℕ) (s s' : MempoolSnapshot) : Type 0 where
  pub commitments : IsPruned cutoff s.commitment s'.commitment
  pub storages : IsPruned cutoff s.storage s'.storage
  pub markets : IsPruned cutoff s.market s'.market

-- Whether or not the save succeeds, a prune leaves in each queue, in order, exactly the entries
-- enqueued no earlier than the time to live before now.
pub prune_expired-Pruned :
    (saved : Bool) (now : ℕ) (m : LtpMempool)
    → Pruned (now - m.profile.ttl_secs) m.snapshot (after (prune_expired saved now m)).snapshot
unfolding retain_all
prune_expired-Pruned saved now m =
    let c = now - m.profile.ttl_secs in
    rw (after-prune_expired saved now m) (record {
      commitments = retain-IsPruned c m.snapshot.commitment;
      storages = retain-IsPruned c m.snapshot.storage;
      markets = retain-IsPruned c m.snapshot.market;
    })
