-- ===== src/Tests/Anchors.antt =====
-- The calendar at concrete digests.
use lord.Prelude.{ℕ, ◌≡◌, refl, some, List, [], ◌∷◌, ◌++◌, length, min}
use mathlib.Core.List.{Perm}
use lord.Calendar.Queue.{
  DigestQueue, position, remove, take_at, drain_batch, drain_priority, drain_batch_prioritized,
}
use lord.Calendar.Queue.Drain.{drain_batch_prioritized-Perm}
use lord.Calendar.Merkle.{Digest, MerklePath, cat_sha256d, root_loop, ots_merkle_root, merkle_path}
use lord.Calendar.Merkle.Inclusion.{fold_path, merkle_path-root}
use lord.Calendar.BitcoinMerkle.{bitcoin_merkle_pair, bitcoin_tx_merkle_path}
use lord.Calendar.BitcoinMerkle.Agree.{bitcoin_tx_merkle_path-root}

-- In the place of a hash, a function that keeps both sides apart.
abbrev mark : List ℕ → List ℕ
mark bytes = 0 ∷ bytes

abbrev three : List Digest
three = (1 ∷ []) ∷ (2 ∷ []) ∷ (3 ∷ []) ∷ []

merkle_path-root_example :
    (root : Digest) × (path : MerklePath) × (ots_merkle_root mark three ≡ some (some root))
    × (merkle_path mark three 2 ≡ some (some path))
    × (fold_path (cat_sha256d mark) (3 ∷ []) path ≡ root)
merkle_path-root_example = merkle_path-root mark three 2 (3 ∷ []) refl

bitcoin_tx_merkle_path-root_example :
    (root : Digest) × (path : MerklePath) × (root_loop (bitcoin_merkle_pair mark) 3 three
      ≡ some (root ∷ []))
    × (bitcoin_tx_merkle_path mark three 2 ≡ some (some path))
    × (fold_path (bitcoin_merkle_pair mark) (3 ∷ []) path ≡ root)
bitcoin_tx_merkle_path-root_example = bitcoin_tx_merkle_path-root mark three 2 (3 ∷ []) refl

abbrev waiting : DigestQueue
waiting = record { pending = 1 ∷ 2 ∷ 3 ∷ [] }

high_first :
    drain_batch_prioritized (3 ∷ 9 ∷ 1 ∷ []) 1 waiting ≡ (3 ∷ [], record { pending = 1 ∷ 2 ∷ [] })
unfolding drain_batch_prioritized drain_priority take_at position remove drain_batch
high_first = refl

drain_batch_prioritized-Perm_example :
    Perm
      ((drain_batch_prioritized (3 ∷ 9 ∷ []) 2 waiting).0
        ++ (drain_batch_prioritized (3 ∷ 9 ∷ []) 2 waiting).1.pending)
      waiting.pending
    × (length (drain_batch_prioritized (3 ∷ 9 ∷ []) 2 waiting).0 ≡ min 2 (length waiting.pending))
drain_batch_prioritized-Perm_example = drain_batch_prioritized-Perm (3 ∷ 9 ∷ []) 2 waiting
