-- ===== src/Tests/Queues.antt =====
-- The mempool at concrete entries.
use lord.Prelude.{ℕ, ◌-◌, ◌≡◌, true, false}
use mathlib.Core.List.{Perm}
use lord.Ltp.Chain
use lord.Ltp.Mempool
use lord.Ltp.Mempool.{
  LtpMempoolEntry, Entries, LtpMempool, after, fresh, enqueue, drain, prune_expired,
  commitment_start_digests, start_digests,
}
use lord.Ltp.Mempool.Sound
use lord.Ltp.Mempool.Sound.{Reachable, Reachable-IsSound}
use lord.Ltp.Mempool.SoundQueue.{IsSound}
use lord.Ltp.Mempool.Prune.{Pruned, prune_expired-Pruned}
use lord.Ltp.Mempool.Priority.{IsSorted, commitment_start_digests-IsSorted}

abbrev entry : ℕ → ℕ → ℕ → LtpMempoolEntry
entry digest at priority = record {
  bao_root = 1;
  start_digest = digest;
  enqueued_at = at;
  priority = priority;
  queue = Mempool.commitment;
}

abbrev two : LtpMempool
two =
    after
      (enqueue false (entry 8 500 1) (after (enqueue true (entry 7 100 0) (fresh Chain.regtest))))

Reachable-IsSound_example : IsSound two
Reachable-IsSound_example =
    Reachable-IsSound Chain.regtest two
      (Sound.enqueued false (entry 8 500 1) (Sound.enqueued true (entry 7 100 0) Sound.opened))

-- After 300 seconds an entry of regtest has had its time.
prune_expired-Pruned_example :
    Pruned (450 - two.profile.ttl_secs) two.snapshot (after (prune_expired true 450 two)).snapshot
prune_expired-Pruned_example = prune_expired-Pruned true 450 two

commitment_start_digests-IsSorted_example :
    (sorted : Entries) × (commitment_start_digests two ≡ start_digests sorted)
    × Perm sorted two.snapshot.commitment
    × IsSorted sorted
commitment_start_digests-IsSorted_example = commitment_start_digests-IsSorted two
