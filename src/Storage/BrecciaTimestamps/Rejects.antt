-- ===== src/Storage/BrecciaTimestamps/Rejects.antt =====
-- The reader of timestamps and the second version of the log's header.
use lord.Prelude.{ℕ, ◌==◌, ◌≡◌, Option, some, List, refl, arith}
use lord.Commit.BrecciaLog.{err, unsupported_version, read_all, ok}
use lord.Commit.BrecciaLog.Frames.{frames}
use lord.Commit.BrecciaLog.Reading.{check_version-log}
use lord.Commit.BrecciaLog.Written.{Written, Written-IsLog, read_all-Written}
use lord.Storage.BrecciaTimestamps.{load_breccia_timestamps}

module _ (deserialize : List ℕ → Option (ℕ × ℕ)) (file : List ℕ) (blobs : List (List ℕ)) where
  -- A log whose header was moved to the second version, which the crate of commitments reads back whole,
  -- is refused by the reader of timestamps as a version that is not supported, whatever its blobs are.
  pub load_breccia_timestamps-v2 :
      Written 2 file blobs
      → (read_all (some file) ≡ ok blobs)
        × (load_breccia_timestamps deserialize (some file) ≡ err unsupported_version)
  unfolding load_breccia_timestamps
  load_breccia_timestamps-v2 w =
      let log = Written-IsLog w in
      (
        read_all-Written 2 file blobs w,
        rw (log.bytes, check_version-log 2 (frames blobs) (λ version. version == 1) (omega arith))
            refl,
      )
