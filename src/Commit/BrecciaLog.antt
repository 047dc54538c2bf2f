-- ===== src/Commit/BrecciaLog.antt =====
-- crates/lord-commit/src/breccia_log.rs: the append-only log of blobs. A file is the list of its bytes,
-- the path to it is left out, and so is every failure of the disk but the early end of a file.
pub mod Reading
pub mod Frames
pub mod Written
pub mod Torn
use lord.Prelude.{
  ℕ, zero, suc, ◌^◌, ltb, ◌==◌, Bool, true, false, not, ◌&&◌, ◌||◌, Option, none, some, List, [],
  ◌∷◌, ◌++◌, length, take, drop, if◌then◌else◌,
}
use lord.Index.SatRange.{le_bytes, from_le_bytes}

pub data Error : Type 0 where
  invalid_magic unsupported_version blob_too_long unexpected_eof : Error

-- `diverged`: the fuel of a loop ran out.
pub data Result {ℓ} (A : Type ℓ) : Type ℓ where
  ok : A → Result A
  err : Error → Result A
  diverged : Result A

infixl 5 ◌>>=◌ ◌>>◌
abbrev pub ◌>>=◌ {ℓ κ} : {A : Type ℓ} {B : Type κ} → Result A → (A → Result B) → Result B
diverged >>= next = diverged
err e >>= next = err e
ok found >>= next = next found

abbrev pub ◌>>◌ {ℓ} : {B : Type ℓ} → Result (Unit {0}) → Result B → Result B
step >> rest = step >>= λ _. rest

abbrev pub ensure : Bool → Error → Result (Unit {0})
ensure true e = ok tt
ensure false e = err e

-- `LORBRECC`
abbrev pub magic : List ℕ
magic = b'L' ∷ b'O' ∷ b'R' ∷ b'B' ∷ b'R' ∷ b'E' ∷ b'C' ∷ b'C' ∷ []

abbrev pub header_version_v1 : ℕ
header_version_v1 = 1

abbrev pub header_version_v2 : ℕ
header_version_v2 = 2

abbrev pub header_len : ℕ
header_len = 12

-- `1 << 20`
unfoldable pub max_blob_len : ℕ
max_blob_len = 2 ^ 20

unfoldable pub same_bytes : List ℕ → List ℕ → Bool
same_bytes [] [] = true
same_bytes [] (b ∷ bs) = false
same_bytes (a ∷ bytes) [] = false
same_bytes (a ∷ bytes) (b ∷ bs) = a == b && same_bytes bytes bs

-- `read_exact`: the bytes read and those behind them, `none` at an early end.
unfoldable pub read_exact : ℕ → List ℕ → Option (List ℕ × List ℕ)
read_exact n file = if ltb (length file) n then none else some (take n file, drop n file)

unfoldable pub create : List ℕ
unfolding le_bytes
create = magic ++ le_bytes 4 header_version_v1

unfoldable pub or_eof : Option (List ℕ × List ℕ) → Result (List ℕ × List ℕ)
or_eof none = err unexpected_eof
or_eof (some found) = ok found

unfoldable pub check_version : (ℕ → Bool) → List ℕ → Result (Unit {0})
unfolding same_bytes or_eof from_le_bytes read_exact
check_version is_supported file = do
  head ← or_eof (read_exact 8 file)
  ensure (same_bytes head.0 magic) invalid_magic
  version ← or_eof (read_exact 4 head.1)
  ensure (is_supported (from_le_bytes version.0)) unsupported_version

-- The checks of `open`; the file itself is not changed.
unfoldable pub open_log : List ℕ → Result (Unit {0})
unfolding check_version
open_log file =
    check_version (λ version. version == header_version_v1 || version == header_version_v2) file

-- The version is written over the four bytes behind the magic.
unfoldable pub ensure_v2_header : List ℕ → List ℕ
unfolding le_bytes
ensure_v2_header file = take 8 file ++ (le_bytes 4 header_version_v2 ++ drop 12 file)

-- The offset of the blob's length, and the file behind the write.
unfoldable pub append_blob : List ℕ → List ℕ → Result (ℕ × List ℕ)
unfolding le_bytes max_blob_len
append_blob blob file =
    if ltb max_blob_len (length blob)
    then err blob_too_long
    else ok (length file, file ++ (le_bytes 8 (length blob) ++ blob))

-- The blob behind its length.
unfoldable pub read_blob : List ℕ → List ℕ → Result (List ℕ × List ℕ)
unfolding from_le_bytes max_blob_len read_exact or_eof
read_blob len_buf rest = do
  let len = from_le_bytes len_buf
  ensure (not (ltb max_blob_len len)) blob_too_long
  or_eof (read_exact len rest)

-- A round of `read_all_blobs` behind the read of a length, and the rest of the loop.
unfoldable pub next_blob :
    Option (List ℕ × List ℕ)
    → List (List ℕ)
    → (List ℕ → List (List ℕ) → Result (List (List ℕ)))
    → Result (List (List ℕ))
unfolding read_blob
next_blob none blobs loop = ok blobs
next_blob (some (len_buf, rest)) blobs loop =
    read_blob len_buf rest >>= λ found. loop found.1 (blobs ++ found.0 ∷ [])

-- The loop of `read_all_blobs`, which ends where no length can be read.
unfoldable pub read_blobs : ℕ → List ℕ → List (List ℕ) → Result (List (List ℕ))
unfolding read_exact
read_blobs zero file blobs = diverged
read_blobs (suc fuel) file blobs = next_blob (read_exact 8 file) blobs (read_blobs fuel)

-- Each round reads a length, so that the bytes are fuel enough.
unfoldable pub read_all_blobs : List ℕ → Result (List (List ℕ))
read_all_blobs file = read_blobs (suc (length file)) (drop header_len file) []

-- `BrecciaLog::open_or_create` and `read_all`, where the file may be absent.
unfoldable pub open_or_create : Option (List ℕ) → Result (List ℕ)
open_or_create none = ok create
open_or_create (some file) = do open_log file; ok file

unfoldable pub read_all : Option (List ℕ) → Result (List (List ℕ))
read_all none = ok []
read_all (some file) = do open_log file; read_all_blobs file
