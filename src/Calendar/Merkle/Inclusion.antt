-- ===== src/Calendar/Merkle/Inclusion.antt =====
-- The path of a leaf leads to the root.
use mathlib.Core.List.{append_assoc, append-nil}
use lord.Prelude.{
  ℕ, zero, suc, ◌/◌, ◌%◌, ◌≤◌, ◌<◌, ◌≡◌, refl, ap, sym, ◌∙◌, some, List, [], ◌∷◌, ◌++◌, length,
  get_elem?, ◌==◌, if◌then◌else◌, arith, dec_lt,
}
use lord.Calendar.Merkle.{
  Digest, MerklePath, cat_sha256d, sibling_idx, root_loop, path_loop, first, ots_merkle_root,
  merkle_path,
}
use lord.Calendar.Merkle.Tree.{
  padded, above, length-above, pad-padded, pairs-padded, join, sibling_lem,
}

-- What a verifier computes from a leaf and its path.
abbrev pub fold_path : (Digest → Digest → Digest) → Digest → MerklePath → Digest
fold_path cat digest [] = digest
fold_path cat digest ((is_left, sibling) ∷ path) =
    fold_path cat (if is_left then cat digest sibling else cat sibling digest) path

pub within :
    (level : List Digest) (i : ℕ) (d : Digest) → get_elem? level i ≡ some d → i < length level
within [] i d h = absurd cc
within (e ∷ level) zero d h = omega arith
within (e ∷ level) (suc i) d h = omega (arith, within level i d h)

module _ (cat : Digest → Digest → Digest) where
  root_done :
      (fuel : ℕ) (level : List Digest) → length level ≤ 1 → root_loop cat fuel level ≡ some level
  unfolding root_loop
  root_done zero level h = ground arith
  root_done (suc fuel) level h = ground arith

  root_round :
      (fuel : ℕ) (level : List Digest)
      → 1 < length level
      → root_loop cat (suc fuel) level ≡ root_loop cat fuel (above cat level)
  unfolding root_loop
  root_round fuel level h = rw (pad-padded level) (rw (pairs-padded cat level) (ground arith))

  pub path_done :
      (fuel : ℕ) (level : List Digest) (idx : ℕ) (path : MerklePath)
      → length level ≤ 1
      → path_loop cat fuel level idx path ≡ some path
  unfolding path_loop
  path_done zero level idx path h = ground arith
  path_done (suc fuel) level idx path h = ground arith

  pub path_round :
      (fuel : ℕ) (level : List Digest) (idx : ℕ) (path : MerklePath) (y : Digest)
      → 1 < length level
      → get_elem? (padded level) (sibling_idx idx) ≡ some y
      → path_loop cat (suc fuel) level idx path
        ≡ path_loop cat fuel (above cat level) (idx / 2) (path ++ ((idx % 2 == 0, y) ∷ []))
  unfolding path_loop
  path_round fuel level idx path y h e =
      rw (pad-padded level) (rw (e, pairs-padded cat level) (ground arith))

  single :
      (level : List Digest) (idx : ℕ) (x : Digest)
      → length level ≤ 1
      → get_elem? level idx ≡ some x
      → level ≡ x ∷ []
  single [] idx x h e = absurd cc
  single (a ∷ []) zero x h e = cc
  single (a ∷ []) (suc idx) x h e = absurd cc
  single (a ∷ b ∷ level) idx x h e = absurd (omega arith)

  -- The loops end in a root and in a path that leads to it.
  pub record Leads (fuel : ℕ) (level : List Digest) (idx : ℕ) (x : Digest) : Type 0 where
    pub root : Digest
    pub path : MerklePath
    pub root_found : root_loop cat fuel level ≡ some (root ∷ [])
    pub path_found :
        (before : MerklePath) → path_loop cat fuel level idx before ≡ some (before ++ path)
    pub folds : fold_path cat x path ≡ root

  further_up :
      (fuel : ℕ) (level : List Digest) (idx : ℕ) (x : Digest)
      → 1 < length level
      → (y : Digest) → get_elem? (padded level) (sibling_idx idx) ≡ some y
      → Leads fuel (above cat level) (idx / 2) (join cat idx x y)
      → Leads (suc fuel) level idx x
  further_up fuel level idx x h y s up = record {
    root = up.root;
    path = (idx % 2 == 0, y) ∷ up.path;
    root_found = root_round fuel level h ∙ up.root_found;
    path_found = λ before.
        path_round fuel level idx before y h s
        ∙ up.path_found _
        ∙ ap some (append_assoc before ((idx % 2 == 0, y) ∷ []) up.path);
    folds = up.folds;
  }

  at_top :
      (fuel : ℕ) (level : List Digest) (idx : ℕ) (x : Digest)
      → length level ≤ 1
      → get_elem? level idx ≡ some x
      → Leads fuel level idx x
  at_top fuel level idx x h e = record {
    root = x;
    path = [];
    root_found = root_done fuel level h ∙ ap some (single level idx x h e);
    path_found = λ before. path_done fuel level idx before h ∙ ap some (sym (append-nil before));
    folds = refl;
  }

  pub loops_lem :
      (fuel : ℕ) (level : List Digest) (idx : ℕ) (x : Digest)
      → length level ≤ suc fuel
      → get_elem? level idx ≡ some x
      → Leads fuel level idx x
  loops_lem zero level idx x h e = at_top zero level idx x h e
  loops_lem (suc fuel) level idx x h e = elim (dec_lt 1 (length level)) [
    | yes more ↦
        let (y, s, j) = sibling_lem cat level idx x e in
        further_up fuel level idx x more y s (
          loops_lem fuel (above cat level) (idx / 2) (join cat idx x y)
            (omega (arith, length-above cat level)) j)
    | no few ↦ at_top (suc fuel) level idx x (omega arith) e
  ]

-- For the leaf at an index the path exists, the tree has a root, and folding the path from the leaf,
-- by the side that each step names, gives that root.
pub merkle_path-root :
    (execute : List ℕ → List ℕ) (leaves : List Digest) (index : ℕ) (leaf : Digest)
    → get_elem? leaves index ≡ some leaf
    → (root : Digest) × (path : MerklePath) × (ots_merkle_root execute leaves ≡ some (some root))
      × (merkle_path execute leaves index ≡ some (some path))
      × (fold_path (cat_sha256d execute) leaf path ≡ root)
unfolding ots_merkle_root merkle_path first
merkle_path-root execute leaves index leaf e =
    let l = loops_lem (cat_sha256d execute) (length leaves) leaves index leaf (omega arith) e in
    let within : index < length leaves = within leaves index leaf e in
    (l.root, l.path, rw l.root_found (ground arith), rw (l.path_found []) (ground arith), l.folds)
