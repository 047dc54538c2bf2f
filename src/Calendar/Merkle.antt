-- ===== src/Calendar/Merkle.antt =====
-- crates/lord-calendar/src/merkle.rs: the root of a tree over digests, and the path of a leaf. The
-- hash of the `opentimestamps` crate is a parameter. `none` is a panic: a slice out of range, an
-- `expect`; no fuel is left over to tell it from one, which the theorems exclude.
pub mod Tree
pub mod Inclusion
use lord.Prelude.{
  ℕ, zero, suc, ◌+◌, ◌-◌, ◌*◌, ◌/◌, ◌%◌, Bool, Option, none, some, List, [], ◌∷◌, ◌++◌, length,
  get_elem?, leb, ltb, ◌==◌, if◌then◌else◌, min,
}
use lord.Prelude.Monad.{◌>>=◌}

-- `Vec<u8>`
abbrev pub Digest : Type 0
Digest = List ℕ

-- The parameter is `Op::Sha256.execute`.
unfoldable pub cat_sha256d : (List ℕ → List ℕ) → Digest → Digest → Digest
cat_sha256d execute left right = execute (execute (left ++ right))

-- `slice::last`
unfoldable pub last : List Digest → Option Digest
last [] = none
last (d ∷ []) = some d
last (d ∷ e ∷ level) = last (e ∷ level)

-- An odd level gets its last digest twice.
unfoldable pub pad : List Digest → Option (List Digest)
pad level =
    if length level % 2 == 1 then (do d ← last level; some (level ++ (d ∷ []))) else some level

-- The loop over `chunks(2)`.
unfoldable pub pairs : (Digest → Digest → Digest) → List Digest → Option (List Digest)
pairs cat [] = some []
pairs cat (a ∷ []) = none
pairs cat (a ∷ b ∷ level) = do next ← pairs cat level; some (cat a b ∷ next)

unfoldable pub root_loop : (Digest → Digest → Digest) → ℕ → List Digest → Option (List Digest)
root_loop cat zero level = if ltb 1 (length level) then none else some level
root_loop cat (suc fuel) level =
    let round : Option (List Digest) = (do
      padded ← pad level
      next ← pairs cat padded
      root_loop cat fuel next) in
    if ltb 1 (length level) then round else some level

-- `into_iter().next()`
unfoldable pub first : List Digest → Option Digest
first [] = none
first (d ∷ level) = some d

-- The inner option is the code's; a tree has fewer levels than leaves.
unfoldable pub ots_merkle_root : (List ℕ → List ℕ) → List Digest → Option (Option Digest)
ots_merkle_root execute leaves =
    let root : Option (Option Digest) = (do
      level ← root_loop (cat_sha256d execute) (length leaves) leaves
      some (first level)) in
    if length leaves == 0 then some none else root

-- Whether a digest is on the left, and its sibling, from the leaf up.
abbrev pub MerklePath : Type 0
MerklePath = List (Bool × Digest)

unfoldable pub sibling_idx : ℕ → ℕ
sibling_idx idx = if idx % 2 == 0 then idx + 1 else idx - 1

unfoldable pub path_loop :
    (Digest → Digest → Digest) → ℕ → List Digest → ℕ → MerklePath → Option MerklePath
path_loop cat zero level idx path = if ltb 1 (length level) then none else some path
path_loop cat (suc fuel) level idx path =
    let round : Option MerklePath = (do
      padded ← pad level
      sibling ← get_elem? padded (sibling_idx idx)
      next ← pairs cat padded
      path_loop cat fuel next (idx / 2) (path ++ ((idx % 2 == 0, sibling) ∷ []))) in
    if ltb 1 (length level) then round else some path

unfoldable pub merkle_path : (List ℕ → List ℕ) → List Digest → ℕ → Option (Option MerklePath)
merkle_path execute leaves index =
    let found : Option (Option MerklePath) = (do
      path ← path_loop (cat_sha256d execute) (length leaves) leaves index []
      some (some path)) in
    if leb (length leaves) index then some none else found
