-- ===== src/Commit/BrecciaLog/Frames.antt =====
-- The bytes of the blobs in a log.
use lord.Prelude.{ℕ, ◌^◌, ◌≤◌, List, [], ◌∷◌, ◌++◌, length}
use lord.Index.SatRange.{le_bytes}

-- The bytes that `append_blob` writes, and those of a list of blobs.
abbrev pub frame : List ℕ → List ℕ
frame blob = le_bytes 8 (length blob) ++ blob

abbrev pub frames : List (List ℕ) → List ℕ
frames [] = []
frames (blob ∷ blobs) = le_bytes 8 (length blob) ++ (blob ++ frames blobs)

abbrev pub AllShort : List (List ℕ) → Type 0
AllShort [] = Unit
AllShort (blob ∷ blobs) = (length blob ≤ 2 ^ 20) × AllShort blobs
