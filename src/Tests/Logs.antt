-- ===== src/Tests/Logs.antt =====
-- A log of two blobs, and entries under a toy `bincode`.
use lord.Prelude.{ℕ, ◌≡◌, refl, arith, some, none, List, [], ◌∷◌, ◌++◌, take, ltb, if◌then◌else◌}
use lord.Index.SatRange.{le_bytes}
use lord.Commit.BrecciaLog.{
  ok, err, unexpected_eof, unsupported_version, create, append_blob, ensure_v2_header, read_all,
}
use lord.Commit.BrecciaLog.Written.{Written, created, appended, bumped, read_all-Written}
use lord.Commit.BrecciaLog.Frames.{frame}
use lord.Commit.BrecciaLog.Torn.{read_all_torn}
use lord.Storage.BrecciaTimestamps.{load_breccia_timestamps}
use lord.Storage.BrecciaTimestamps.Rejects.{load_breccia_timestamps-v2}
use lord.Commit.Entry.{
  starts_with, CommitmentEntry, CommitmentEntryV2, v1, v2, Bincode, encode_entry, encode_entry_v2,
  decode_breccia_blob,
}
use lord.Commit.Entry.Forms.{decode_breccia_blob-encode}

abbrev one_blob : List ℕ
one_blob = 7 ∷ 8 ∷ 9 ∷ []

abbrev log_v1 : List ℕ
log_v1 = create ++ (le_bytes 8 3 ++ one_blob)

abbrev log_v2 : List ℕ
log_v2 = ensure_v2_header log_v1

append_one : append_blob one_blob create ≡ ok (12, log_v1)
unfolding append_blob create
append_one = refl

log_v1-Written : Written 1 log_v1 (one_blob ∷ [])
log_v1-Written =
    appended 1 log_v1 (one_blob ∷ []) create [] one_blob 12 (created 1 create [] refl refl refl)
      append_one refl

log_v2-Written : Written 2 log_v2 (one_blob ∷ [])
log_v2-Written = bumped 2 log_v2 (one_blob ∷ []) log_v1 1 log_v1-Written refl refl

read_all-Written_example : read_all (some log_v2) ≡ ok (one_blob ∷ [])
read_all-Written_example = read_all-Written 2 log_v2 (one_blob ∷ []) log_v2-Written

read_all_torn_example :
    read_all (some (log_v2 ++ take 10 (frame one_blob)))
    ≡ (if ltb 10 8 then ok (one_blob ∷ []) else err unexpected_eof)
read_all_torn_example =
    read_all_torn 2 log_v2 (one_blob ∷ []) one_blob 10 log_v2-Written (omega arith) (omega arith)

load_breccia_timestamps-v2_example :
    (read_all (some log_v2) ≡ ok (one_blob ∷ []))
    × (load_breccia_timestamps (λ blob. none) (some log_v2) ≡ err unsupported_version)
load_breccia_timestamps-v2_example =
    load_breccia_timestamps-v2 (λ blob. none) log_v2 (one_blob ∷ []) log_v2-Written

-- Entries of a root of four bytes and nothing else.
abbrev short_entry : List ℕ → CommitmentEntry
short_entry root = record {
  bao_root = root;
  ots_order_key = [];
  timestamped_at = 0;
  carbonado_path = [];
}

abbrev short_entry_v2 : List ℕ → CommitmentEntryV2
short_entry_v2 root = record {
  bao_root = root;
  ots_order_key = [];
  timestamped_at = 0;
  carbonado_path = [];
  attestation_height = 5;
  attestation_txid = [];
  replication_target = 0;
}

abbrev toy_bincode : Bincode
toy_bincode = record {
  serialize = λ entry. entry.bao_root;
  deserialize = λ bytes. some (short_entry bytes);
  serialize_v2 = λ entry. entry.bao_root;
  deserialize_v2 = λ bytes. some (short_entry_v2 bytes);
}

abbrev small_root : List ℕ
small_root = 1 ∷ 2 ∷ 3 ∷ 4 ∷ []

decode_breccia_blob-encode_example :
    (decode_breccia_blob toy_bincode (encode_entry toy_bincode (short_entry small_root))
      ≡ some (v1 (short_entry small_root)))
    × (decode_breccia_blob toy_bincode (encode_entry_v2 toy_bincode (short_entry_v2 small_root))
        ≡ some (v2 (short_entry_v2 small_root)))
unfolding starts_with
decode_breccia_blob-encode_example =
    decode_breccia_blob-encode toy_bincode (short_entry small_root) (short_entry_v2 small_root) []
      refl refl refl (omega arith) refl
