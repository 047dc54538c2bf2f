-- ===== src/Calendar/BitcoinMerkle.antt =====
-- The paths to a block's merkle root in crates/lord-calendar/src/merkle.rs. The hash of the `bitcoin`
-- crate is a parameter; `none` is an index out of range, or no fuel.
pub mod Agree
use lord.Prelude.{
  ℕ, zero, suc, ◌+◌, ◌-◌, ◌*◌, ◌/◌, ◌%◌, Option, none, some, List, [], ◌∷◌, ◌++◌, length, get_elem?,
  leb, ltb, ◌==◌, if◌then◌else◌, min,
}
use lord.Prelude.Monad.{◌>>=◌}
use lord.Calendar.Merkle.{Digest, MerklePath}

-- The parameter is `sha256d::Hash::hash`.
unfoldable pub bitcoin_merkle_pair : (List ℕ → List ℕ) → Digest → Digest → Digest
bitcoin_merkle_pair hash left right = hash (left ++ right)

-- The loop over `pair_idx`, with the number of rounds left.
unfoldable pub next_level : (Digest → Digest → Digest) → List Digest → ℕ → ℕ → Option (List Digest)
next_level pair level zero pair_idx = some []
next_level pair level (suc rounds) pair_idx = do
  let idx1 = pair_idx * 2
  let idx2 = min (idx1 + 1) (length level - 1)
  a ← get_elem? level idx1
  b ← get_elem? level idx2
  next ← next_level pair level rounds (pair_idx + 1)
  some (pair a b ∷ next)

unfoldable pub sibling_of : ℕ → ℕ → ℕ
sibling_of len index =
    if index % 2 == 0 then if ltb (index + 1) len then index + 1 else index else index - 1

unfoldable pub bitcoin_loop :
    (Digest → Digest → Digest) → ℕ → List Digest → ℕ → MerklePath → Option MerklePath
bitcoin_loop pair zero level index path = if ltb 1 (length level) then none else some path
bitcoin_loop pair (suc fuel) level index path =
    let round : Option MerklePath = (do
      sibling ← get_elem? level (sibling_of (length level) index)
      next ← next_level pair level ((length level + 1) / 2) 0
      bitcoin_loop pair fuel next (index / 2) (path ++ ((index % 2 == 0, sibling) ∷ []))) in
    if ltb 1 (length level) then round else some path

unfoldable pub bitcoin_tx_merkle_path :
    (List ℕ → List ℕ) → List Digest → ℕ → Option (Option MerklePath)
bitcoin_tx_merkle_path hash leaves index =
    let found : Option (Option MerklePath) = (do
      path ← bitcoin_loop (bitcoin_merkle_pair hash) (length leaves) leaves index []
      some (some path)) in
    if leb (length leaves) index then some none else found
