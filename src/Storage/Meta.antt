-- ===== src/Storage/Meta.antt =====
-- crates/lord-storage/src/meta.rs: what the storage keeps of a commitment, its older schemas, and the choice
-- of its visibility. The layout is that of crates/lord-storage/src/layout.rs, whose kinds are a number here.
use lord.Prelude.{ℕ, ◌%◌, ◌==◌, ◌&&◌, Bool, true, false, Option, none, some, List, if◌then◌else◌}

pub data Visibility : Type 0 where
  public private : Visibility

unfoldable pub visibility_of : ℕ → Visibility
visibility_of format = if format % 2 == 0 then public else private

pub record CommitmentMeta : Type 0 where
  pub bao_root : ℕ
  pub carbonado_path : List ℕ
  pub format : ℕ
  pub visibility : Visibility
  pub layout : ℕ
  pub filepack_fp : Option (List ℕ)
  pub created_at : ℕ
  pub ots_proof_path : Option (List ℕ)
  pub ots_order_key : Option (List ℕ)
  pub timestamped_at : Option ℕ

unfoldable pub new_meta : ℕ → List ℕ → ℕ → ℕ → ℕ → CommitmentMeta
unfolding visibility_of
new_meta bao_root carbonado_path format layout created_at = record {
  bao_root = bao_root;
  carbonado_path = carbonado_path;
  format = format;
  visibility = visibility_of format;
  layout = layout;
  filepack_fp = none;
  created_at = created_at;
  ots_proof_path = none;
  ots_order_key = none;
  timestamped_at = none;
}

abbrev is_some : {A : Type 0} → Option A → Bool
is_some none = false
is_some (some a) = true

-- Both an OpenTimestamps proof and an order key are recorded.
unfoldable pub is_timestamped : CommitmentMeta → Bool
is_timestamped meta = is_some meta.ots_proof_path && is_some meta.ots_order_key
