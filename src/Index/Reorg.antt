-- ===== src/Index/Reorg.antt =====
-- src/index/reorg.rs: the search for the block where the node's chain left the index's, and the
-- savepoints to return to. A block hash is a number; a failure of the database or of a call to the
-- node is left out. `none` is a panic of the search: an `unwrap`, or a remainder by 0.
pub mod Fork
pub mod Savepoints
use lord.Prelude.{
  ℕ, zero, suc, ◌+◌, ◌-◌, ◌*◌, ◌%◌, Bool, true, false, not, ◌&&◌, ◌||◌, Option, none, some, List,
  [], ◌∷◌, length, leb, ltb, min, max, ◌==◌, if◌then◌else◌,
}
use lord.Prelude.Monad.{◌>>=◌}
use lord.Ordinals.Sat.{to_u32}
use lord.Ordinals.Constants.{add_u32, mul_u32, sub_u32, add_u64, mul_u64}

pub record Settings : Type 0 where
  pub savepoint_interval : ℕ
  pub max_savepoints : ℕ

-- The hashes that the index keeps by height, and that of its last block; the node's chain.
pub record Chains : Type 0 where
  pub height_to_block_hash : ℕ → Option ℕ
  pub last : Option ℕ
  pub get_block_hash : ℕ → Option ℕ

pub data Detected : Type 0 where
  fine : Detected
  recoverable : ℕ → ℕ → Detected
  unrecoverable : Detected

unfoldable pub block_hash_in_txn : Chains → Option ℕ → Option ℕ
block_hash_in_txn chains (some height) = chains.height_to_block_hash height
block_hash_in_txn chains none = chains.last

unfoldable pub checked_sub : ℕ → ℕ → Option ℕ
checked_sub a b = if leb b a then some (a - b) else none

unfoldable pub same_hash : Option ℕ → Option ℕ → Bool
same_hash (some a) (some b) = a == b
same_hash none none = true
same_hash _ _ = false

-- `a % b`
unfoldable pub rem : ℕ → ℕ → Option ℕ
rem a b = if b == 0 then none else some (a % b)

unfoldable pub max_recoverable_reorg_depth : Settings → ℕ → Option ℕ
unfolding to_u32 rem
max_recoverable_reorg_depth settings height = do
  savepoint_interval ← to_u32 settings.savepoint_interval
  max_savepoints ← to_u32 settings.max_savepoints
  remainder ← rem height savepoint_interval
  some (add_u32 (mul_u32 (sub_u32 max_savepoints 1) savepoint_interval) remainder)

-- The body of the loop agrees at this depth.
unfoldable pub agrees : Chains → ℕ → ℕ → Bool
agrees chains height depth =
    same_hash (block_hash_in_txn chains (checked_sub height depth))
      (chains.get_block_hash (height - depth))

-- The loop over the depths from `depth` on, with the number of them.
unfoldable pub search_fork : Chains → ℕ → ℕ → ℕ → Detected
search_fork chains height zero depth = unrecoverable
search_fork chains height (suc rounds) depth =
    let rest = search_fork chains height rounds (depth + 1) in
    if agrees chains height depth then recoverable height depth else rest

-- The loop over the depths from 1 to the limit, the limit not included.
unfoldable pub search_below : Chains → ℕ → Option ℕ → Option Detected
search_below chains height limit = do
  max_recoverable_reorg_depth ← limit
  some (search_fork chains height (max_recoverable_reorg_depth - 1) 1)

unfoldable pub detect_reorg : Settings → Chains → ℕ → ℕ → Option Detected
unfolding search_below
detect_reorg settings chains prev_blockhash height =
    elim (block_hash_in_txn chains (checked_sub height 1)) [
      | none ↦ some fine
      | some index_prev_blockhash ↦
          if index_prev_blockhash == prev_blockhash
          then some fine
          else search_below chains height (max_recoverable_reorg_depth settings height)
    ]

unfoldable pub max_within : ℕ → List ℕ → Option ℕ
max_within target [] = none
max_within target (savepoint ∷ savepoints) =
    let rest = max_within target savepoints in
    let here : Option ℕ = (elim rest [ none ↦ some savepoint | some s ↦ some (max savepoint s) ]) in
    if leb savepoint target then here else rest

-- `none` is the error that no savepoint is early enough.
unfoldable pub savepoint_height_for_reorg : List ℕ → ℕ → ℕ → Option ℕ
savepoint_height_for_reorg savepoints height depth = max_within (height - depth) savepoints

-- `headers` is what the node reports.
unfoldable pub is_savepoint_required : Settings → Bool → ℕ → ℕ → ℕ → Bool
is_savepoint_required settings savepoints_enabled last_savepoint_height height headers =
    let interval = settings.savepoint_interval in
    savepoints_enabled
    && ((ltb height interval || leb interval (height - last_savepoint_height))
        && leb (headers - height) (add_u64 (mul_u64 interval settings.max_savepoints) 1))

-- The savepoints on disk, and the statistics that a call changes.
pub record Saved : Type 0 where
  pub savepoints : List ℕ
  pub last_savepoint_height : ℕ
  pub commits : ℕ

unfoldable pub oldest : List ℕ → Option ℕ
oldest [] = none
oldest (s ∷ savepoints) = elim (oldest savepoints) [ none ↦ some s | some t ↦ some (min s t) ]

unfoldable pub delete_savepoint : ℕ → List ℕ → List ℕ
delete_savepoint height [] = []
delete_savepoint height (s ∷ savepoints) =
    if s == height
    then delete_savepoint height savepoints
    else s ∷ delete_savepoint height savepoints

unfoldable pub clean_up : Option ℕ → List ℕ → List ℕ
clean_up none savepoints = savepoints
clean_up (some height) savepoints = delete_savepoint height savepoints

-- A savepoint at a height replaces one that was there.
unfoldable pub update_savepoints : Settings → Bool → ℕ → ℕ → Saved → Saved
update_savepoints settings savepoints_enabled height headers saved =
    let kept =
      if leb settings.max_savepoints (length saved.savepoints)
      then clean_up (oldest saved.savepoints) saved.savepoints
      else saved.savepoints in
    let created : Saved = record {
      savepoints = height ∷ delete_savepoint height kept;
      last_savepoint_height = height;
      commits = saved.commits + 2;
    } in
    if is_savepoint_required settings savepoints_enabled saved.last_savepoint_height height headers
    then created
    else saved
