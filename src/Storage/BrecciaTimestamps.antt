-- ===== src/Storage/BrecciaTimestamps.antt =====
-- crates/lord-storage/src/breccia_timestamps.rs: the reader of the log of crates/lord-commit that the
-- migration of crates/lord-storage/src/store.rs to schema 3 runs. `bincode` is the parameter
-- `deserialize`: the root and the time of an entry in its first form, where the bytes are one.
pub mod Rejects
use lord.Prelude.{
  ℕ, zero, suc, ◌==◌, Option, none, some, List, [], ◌∷◌, length, drop, if◌then◌else◌,
}
use lord.Commit.BrecciaLog.{
  Result, ok, err, diverged, ◌>>=◌, ◌>>◌, header_len, check_version, read_exact, read_blob,
}

-- `HEADER_VERSION`
abbrev pub header_version : ℕ
header_version = 1

-- A map from roots to times
abbrev pub Timestamps : Type 0
Timestamps = ℕ → Option ℕ

unfoldable pub insert_entry : Option (ℕ × ℕ) → Timestamps → Timestamps
insert_entry none timestamps root = timestamps root
insert_entry (some (bao_root, timestamped_at)) timestamps root =
    if root == bao_root then some timestamped_at else timestamps root

module _ (deserialize : List ℕ → Option (ℕ × ℕ)) where
  -- A round behind the read of a length, and the rest of the loop.
  unfoldable pub next_entry :
      Option (List ℕ × List ℕ)
      → Timestamps
      → (List ℕ → Timestamps → Result Timestamps)
      → Result Timestamps
  unfolding read_blob insert_entry
  next_entry none timestamps loop = ok timestamps
  next_entry (some (len_buf, rest)) timestamps loop = read_blob len_buf rest >>= λ found.
      loop found.1 (insert_entry (deserialize found.0) timestamps)

  unfoldable pub read_entries : ℕ → List ℕ → Timestamps → Result Timestamps
  unfolding read_exact
  read_entries zero file timestamps = diverged
  read_entries (suc fuel) file timestamps =
      next_entry (read_exact 8 file) timestamps (read_entries fuel)

  -- The file is `none` where it does not exist.
  unfoldable pub load_breccia_timestamps : Option (List ℕ) → Result Timestamps
  load_breccia_timestamps none = ok (λ root. none)
  load_breccia_timestamps (some file) = do
    check_version (λ version. version == header_version) file
    read_entries (suc (length file)) (drop header_len file) (λ root. none)
