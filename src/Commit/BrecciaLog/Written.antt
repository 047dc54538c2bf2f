-- ===== src/Commit/BrecciaLog/Written.antt =====
-- A log that is only written by the operations is read back.
use lord.Prelude.{
  ◌==◌, ◌||◌, ℕ, ◌^◌, ◌≤◌, ltb, some, List, [], ◌∷◌, ◌++◌, ◌≡◌, refl, ◌∙◌, arith, Bool-cases,
  length, ◌⊎◌, inl, inr,
}
use mathlib.Core.List.{append_assoc, append-nil}
use lord.Index.SatRange.{le_bytes}
use lord.Commit.BrecciaLog.{
  Result, ok, magic, max_blob_len, create, open_log, ensure_v2_header, append_blob, read_all_blobs,
  read_all,
}
use lord.Commit.BrecciaLog.Frames.{frame, frames, AllShort}
use lord.Commit.BrecciaLog.Reading.{read_blobs_end, check_version-log, read_all_blobs-log}

-- The file with this header version holds the blobs, in the order in which they were appended.
pub data Written : ℕ → List ℕ → List (List ℕ) → Type 0 where
  created :
      (version : ℕ) (file : List ℕ) (blobs : List (List ℕ))
      → version ≡ 1
      → file ≡ create
      → blobs ≡ []
      → Written version file blobs
  appended :
      (version : ℕ) (file : List ℕ) (blobs : List (List ℕ)) (before : List ℕ)
      (earlier : List (List ℕ)) (blob : List ℕ) (offset : ℕ)
      → Written version before earlier
      → append_blob blob before ≡ ok (offset, file)
      → blobs ≡ earlier ++ blob ∷ []
      → Written version file blobs
  bumped :
      (version : ℕ) (file : List ℕ) (blobs : List (List ℕ)) (before : List ℕ) (old : ℕ)
      → Written old before blobs
      → file ≡ ensure_v2_header before
      → version ≡ 2
      → Written version file blobs

-- The bytes of such a file
pub record IsLog (version : ℕ) (file : List ℕ) (blobs : List (List ℕ)) : Type 0 where
  pub bytes : file ≡ magic ++ (le_bytes 4 version ++ frames blobs)
  pub short : AllShort blobs
  pub known : (version ≡ 1) ⊎ (version ≡ 2)

frames-append :
    (blobs : List (List ℕ)) (blob : List ℕ)
    → frames (blobs ++ blob ∷ []) ≡ frames blobs ++ frame blob
frames-append [] blob = rw append-nil
frames-append (b ∷ blobs) blob = simp (frames-append blobs blob, append_assoc)

AllShort-append :
    (blobs : List (List ℕ)) (blob : List ℕ)
    → AllShort blobs
    → length blob ≤ 2 ^ 20
    → AllShort (blobs ++ blob ∷ [])
AllShort-append [] blob h k = (k, tt)
AllShort-append (b ∷ blobs) blob h k = (h.0, AllShort-append blobs blob h.1 k)

append_blob-ok :
    (blob file file' : List ℕ) (offset : ℕ)
    → append_blob blob file ≡ ok (offset, file')
    → (length blob ≤ 2 ^ 20) × (file' ≡ file ++ frame blob)
unfolding append_blob max_blob_len
append_blob-ok blob file file' offset h = elim (Bool-cases (ltb (2 ^ 20) (length blob))) [
  | inl long ↦ let h' = rw long at h in absurd cc
  | inr fits ↦ (ground arith, cc (rw fits at h))
]

appended_bytes :
    (version : ℕ) {blobs : List (List ℕ)} (before : List ℕ) (earlier : List (List ℕ))
    (blob : List ℕ)
    → blobs ≡ earlier ++ blob ∷ []
    → before ≡ magic ++ (le_bytes 4 version ++ frames earlier)
    → before ++ frame blob ≡ magic ++ (le_bytes 4 version ++ frames blobs)
appended_bytes version before earlier blob b e =
    rw (b, e, frames-append earlier blob) (simp (append_assoc))

pub Written-IsLog :
    {version : ℕ} {file : List ℕ} {blobs : List (List ℕ)}
    → Written version file blobs
    → IsLog version file blobs
unfolding create ensure_v2_header le_bytes
Written-IsLog (created _ _ _ v f b) = record {
  bytes = rw (f, v, b) refl;
  short = rw b tt;
  known = inl v;
}
Written-IsLog (appended _ _ _ before earlier blob offset w h b) =
    let log = Written-IsLog w in
    let facts = append_blob-ok blob before _ offset h in
    record {
      bytes = facts.1 ∙ appended_bytes _ before earlier blob b log.bytes;
      short = rw b (AllShort-append earlier blob log.short facts.0);
      known = log.known;
    }
Written-IsLog (bumped _ _ _ before old w f v) =
    let log = Written-IsLog w in
    record { bytes = rw (f, log.bytes, v) refl; short = log.short; known = inr v }

-- A header of either version lets the blobs be read.
pub read_all-log :
    (version : ℕ) (rest : List ℕ) (result : Result (List (List ℕ)))
    → (version ≡ 1) ⊎ (version ≡ 2)
    → read_all_blobs (magic ++ (le_bytes 4 version ++ rest)) ≡ result
    → read_all (some (magic ++ (le_bytes 4 version ++ rest))) ≡ result
unfolding read_all open_log
read_all-log version rest result (inl v) h =
    rw (check_version-log version rest (λ n. n == 1 || n == 2) (omega arith)) (rw v (rw v at h))
read_all-log version rest result (inr v) h =
    rw (check_version-log version rest (λ n. n == 1 || n == 2) (omega arith)) (rw v (rw v at h))

-- The log of a file that was created, appended to and moved to the second version of the header, any
-- number of times and in any order, reads back as the blobs in the order in which they were appended.
pub read_all-Written :
    (version : ℕ) (file : List ℕ) (blobs : List (List ℕ))
    → Written version file blobs
    → read_all (some file) ≡ ok blobs
read_all-Written version file blobs w =
    let log = Written-IsLog w in
    let (fuel, read) = read_all_blobs-log version blobs [] log.short in
    let whole : frames blobs ++ [] ≡ frames blobs = append-nil (frames blobs) in
    rw (log.bytes) (
      read_all-log version (frames blobs) (ok blobs) log.known
        ((rw whole at read) ∙ read_blobs_end fuel blobs))
