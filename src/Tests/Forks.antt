-- ===== src/Tests/Forks.antt =====
-- A reorganisation of two blocks at height 20.
use lord.Prelude.{ℕ, ◌+◌, ◌-◌, ◌≡◌, ◌≢◌, ◌⊎◌, refl, none, some, List, [], ◌∷◌, ltb, if◌then◌else◌}
use lord.Ordinals.Sat.{to_u32}
use lord.Index.Reorg.{
  Settings, Chains, Saved, fine, recoverable, block_hash_in_txn, checked_sub, same_hash, agrees,
  search_fork, max_recoverable_reorg_depth, search_below, rem, detect_reorg,
  savepoint_height_for_reorg,
}
use lord.Index.Reorg.Fork.{IsForkSearch, detect_reorg-IsNearest}
use lord.Index.Reorg.Savepoints.{IsLatest, savepoint_height_for_reorg-IsLatest}

abbrev settings : Settings
settings = record { savepoint_interval = 10; max_savepoints = 2 }

-- The chains agree below height 18.
abbrev chains : Chains
chains = record {
  height_to_block_hash = λ height. some height;
  last = some 19;
  get_block_hash = λ height. some (if ltb height 18 then height else height + 100);
}

found : detect_reorg settings chains 119 20 ≡ some (recoverable 20 3)
unfolding detect_reorg block_hash_in_txn checked_sub search_fork agrees same_hash
    max_recoverable_reorg_depth search_below rem to_u32
found = refl

-- An interval of 0 between savepoints stops the search.
no_interval :
    detect_reorg (record { savepoint_interval = 0; max_savepoints = 2 }) chains 119 20 ≡ none
unfolding detect_reorg block_hash_in_txn checked_sub max_recoverable_reorg_depth search_below rem
    to_u32
no_interval = refl

detect_reorg-IsNearest_example :
    ((detect_reorg settings chains 119 20 ≡ some fine)
      × ((block_hash_in_txn chains (checked_sub 20 1) ≡ none)
          ⊎ (block_hash_in_txn chains (checked_sub 20 1) ≡ some 119)))
    ⊎ (((hash : ℕ) × (block_hash_in_txn chains (checked_sub 20 1) ≡ some hash) × (hash ≢ 119))
        × IsForkSearch settings chains 20 (detect_reorg settings chains 119 20))
detect_reorg-IsNearest_example = detect_reorg-IsNearest settings chains 119 20

abbrev heights : List ℕ
heights = 5 ∷ 15 ∷ 20 ∷ []

savepoint_height_for_reorg-IsLatest_example :
    IsLatest (20 - 3) heights (savepoint_height_for_reorg heights 20 3)
savepoint_height_for_reorg-IsLatest_example = savepoint_height_for_reorg-IsLatest heights 20 3

abbrev saved : Saved
saved = record { savepoints = 5 ∷ 15 ∷ []; last_savepoint_height = 15; commits = 0 }
