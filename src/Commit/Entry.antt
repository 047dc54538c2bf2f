-- ===== src/Commit/Entry.antt =====
-- crates/lord-commit/src/entry.rs: the two forms of an entry of the log. `bincode` is a parameter: how the
-- entries of each form are written and read. A root is the list of its 32 bytes.
pub mod Forms
use lord.Prelude.{
  ℕ, ltb, not, ◌&&◌, Bool, true, false, ◌==◌, Option, none, some, List, [], ◌∷◌, ◌++◌, length, drop,
  if◌then◌else◌,
}

pub record CommitmentEntry : Type 0 where
  pub bao_root : List ℕ
  pub ots_order_key : List ℕ
  pub timestamped_at : ℕ
  pub carbonado_path : List ℕ

pub record CommitmentEntryV2 : Type 0 where
  pub bao_root : List ℕ
  pub ots_order_key : List ℕ
  pub timestamped_at : ℕ
  pub carbonado_path : List ℕ
  pub attestation_height : ℕ
  pub attestation_txid : List ℕ
  pub replication_target : ℕ

pub data BrecciaRecord : Type 0 where
  v1 : CommitmentEntry → BrecciaRecord
  v2 : CommitmentEntryV2 → BrecciaRecord

unfoldable pub record_root : BrecciaRecord → List ℕ
record_root (v1 entry) = entry.bao_root
record_root (v2 entry) = entry.bao_root

unfoldable pub record_height : BrecciaRecord → Option ℕ
record_height (v1 entry) = none
record_height (v2 entry) = some entry.attestation_height

-- `LBV2`
abbrev pub entry_v2_magic : List ℕ
entry_v2_magic = b'L' ∷ b'B' ∷ b'V' ∷ b'2' ∷ []

pub record Bincode : Type 0 where
  pub serialize : CommitmentEntry → List ℕ
  pub deserialize : List ℕ → Option CommitmentEntry
  pub serialize_v2 : CommitmentEntryV2 → List ℕ
  pub deserialize_v2 : List ℕ → Option CommitmentEntryV2

unfoldable pub starts_with : List ℕ → List ℕ → Bool
starts_with [] bytes = true
starts_with (p ∷ prefix) [] = false
starts_with (p ∷ prefix) (b ∷ bytes) = p == b && starts_with prefix bytes

unfoldable pub as_v1 : Option CommitmentEntry → Option BrecciaRecord
as_v1 none = none
as_v1 (some entry) = some (v1 entry)

unfoldable pub as_v2 : Option CommitmentEntryV2 → Option BrecciaRecord
as_v2 none = none
as_v2 (some entry) = some (v2 entry)

module _ (bincode : Bincode) where
  unfoldable pub encode_entry : CommitmentEntry → List ℕ
  encode_entry entry = bincode.serialize entry

  unfoldable pub encode_entry_v2 : CommitmentEntryV2 → List ℕ
  encode_entry_v2 entry = entry_v2_magic ++ bincode.serialize_v2 entry

  -- `none` where the bytes are refused.
  unfoldable pub decode_breccia_blob : List ℕ → Option BrecciaRecord
  unfolding as_v1 as_v2 starts_with
  decode_breccia_blob bytes =
      if not (ltb (length bytes) 4) && starts_with entry_v2_magic bytes
      then as_v2 (bincode.deserialize_v2 (drop 4 bytes))
      else as_v1 (bincode.deserialize bytes)
