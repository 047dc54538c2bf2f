-- ===== src/Commit/BrecciaLog/Reading.antt =====
-- How the bytes of a header and of blobs are read.
use lord.Prelude.{
  ℕ, suc, ◌+◌, ◌-◌, ◌^◌, ◌≤◌, ◌<◌, ltb, not, Bool, true, false, some, List, [], ◌∷◌, ◌++◌, ◌≡◌,
  refl, ap, ◌∙◌, arith, length, length-append, take, drop,
}
use mathlib.Core.List.{append_assoc, append-nil}
use lord.Index.SatRange.{le_bytes, from_le_bytes}
use lord.Commit.BrecciaLog.{
  ensure, unsupported_version, ok, magic, max_blob_len, same_bytes, read_exact, or_eof,
  check_version, read_blob, next_blob, read_blobs, read_all_blobs,
}
use lord.Commit.BrecciaLog.Frames.{frames, AllShort}

pub read_exact-append : (xs ys : List ℕ) → read_exact (length xs) (xs ++ ys) ≡ some (xs, ys)
unfolding read_exact
read_exact-append xs ys = rw (not_short xs ys, take-append xs ys, drop-append xs ys) refl
  where
    not_short : (xs ys : List ℕ) → ltb (length (xs ++ ys)) (length xs) ≡ false
    not_short xs ys = ground (arith, length-append xs ys)

    take-append : (xs ys : List ℕ) → take (length xs) (xs ++ ys) ≡ xs
    take-append [] ys = refl
    take-append (x ∷ xs) ys = ap (λ zs. x ∷ zs) (take-append xs ys)

    drop-append : (xs ys : List ℕ) → drop (length xs) (xs ++ ys) ≡ ys
    drop-append [] ys = refl
    drop-append (x ∷ xs) ys = drop-append xs ys

pub eight_bytes : (n : ℕ) → n ≤ 2 ^ 20 → from_le_bytes (le_bytes 8 n) ≡ n
unfolding from_le_bytes le_bytes
eight_bytes n h = omega arith

pub read_length :
    (n : ℕ) (rest : List ℕ) → read_exact 8 (le_bytes 8 n ++ rest) ≡ some (le_bytes 8 n, rest)
unfolding le_bytes
read_length n rest = read_exact-append (unfold le_bytes in le_bytes 8 n) rest

pub read_frame :
    (blob rest : List ℕ)
    → length blob ≤ 2 ^ 20
    → read_blob (le_bytes 8 (length blob)) (blob ++ rest) ≡ ok (blob, rest)
unfolding read_blob max_blob_len
read_frame blob rest h =
    rw (eight_bytes (length blob) h, fits (length blob) h, read_exact-append blob rest) refl
  where
    fits : (n : ℕ) → n ≤ 2 ^ 20 → not (ltb (2 ^ 20) n) ≡ true
    fits n h = ground arith

pub read_blobs_step :
    (fuel : ℕ) (blob rest : List ℕ) (acc : List (List ℕ))
    → length blob ≤ 2 ^ 20
    → read_blobs (suc fuel) (le_bytes 8 (length blob) ++ (blob ++ rest)) acc
      ≡ read_blobs fuel rest (acc ++ blob ∷ [])
unfolding read_blobs next_blob
read_blobs_step fuel blob rest acc h =
    rw (read_length (length blob) (blob ++ rest), read_frame blob rest h) refl

-- The loop takes one unit of fuel for each whole frame.
pub read_blobs-frames :
    (blobs : List (List ℕ)) (tail : List ℕ) (acc : List (List ℕ)) (fuel : ℕ)
    → AllShort blobs
    → read_blobs (length blobs + fuel) (frames blobs ++ tail) acc
      ≡ read_blobs fuel tail (acc ++ blobs)
read_blobs-frames [] tail acc fuel h =
    let e : 0 + fuel ≡ fuel = omega arith in rw (e, append-nil) refl
read_blobs-frames (b ∷ blobs) tail acc fuel h =
    let e : suc (length blobs) + fuel ≡ suc (length blobs + fuel) = omega arith in
    let parts : (le_bytes 8 (length b) ++ (b ++ frames blobs)) ++ tail
        ≡ le_bytes 8 (length b) ++ (b ++ (frames blobs ++ tail)) =
      simp append_assoc in
    rw (e, parts)
      (read_blobs_step (length blobs + fuel) b (frames blobs ++ tail) acc h.0
        ∙ read_blobs-frames blobs tail (acc ++ b ∷ []) fuel h.1
        ∙ ap (read_blobs fuel tail) (append_assoc acc (b ∷ []) blobs))

pub length-frames : (blobs : List (List ℕ)) → length blobs ≤ length (frames blobs)
unfolding le_bytes
length-frames [] = omega arith
length-frames (b ∷ blobs) = omega (arith, length-append b (frames blobs), length-frames blobs)

pub read_blobs_end : (fuel : ℕ) (acc : List (List ℕ)) → read_blobs (suc fuel) [] acc ≡ ok acc
unfolding read_blobs next_blob read_exact
read_blobs_end fuel acc = refl

pub four_bytes : (n : ℕ) → n < 2 ^ 32 → from_le_bytes (le_bytes 4 n) ≡ n
unfolding from_le_bytes le_bytes
four_bytes n h = omega arith

pub read_version :
    (n : ℕ) (rest : List ℕ) → read_exact 4 (le_bytes 4 n ++ rest) ≡ some (le_bytes 4 n, rest)
unfolding le_bytes
read_version n rest = read_exact-append (unfold le_bytes in le_bytes 4 n) rest

-- The checks of the header leave the test of the version.
pub check_version-log :
    (version : ℕ) (rest : List ℕ) (is_supported : ℕ → Bool)
    → version < 2 ^ 32
    → check_version is_supported (magic ++ (le_bytes 4 version ++ rest))
      ≡ ensure (is_supported version) unsupported_version
unfolding check_version or_eof same_bytes
check_version-log version rest is_supported h =
    rw
      (
        read_exact-append magic (le_bytes 4 version ++ rest),
        read_version version rest,
        four_bytes version h,
      )
      (tidy (is_supported version))
  where
    tidy : (c : Bool) → (ensure c unsupported_version) ≡ ensure c unsupported_version
    tidy c = refl

pub skip_header :
    (version : ℕ) (rest : List ℕ) → drop 12 (magic ++ (le_bytes 4 version ++ rest)) ≡ rest
unfolding le_bytes
skip_header version rest = refl

-- A reading of the frames behind a header, with a tail that ends the loop.
pub read_all_blobs-log :
    (version : ℕ) (blobs : List (List ℕ)) (tail : List ℕ)
    → AllShort blobs
    → (fuel : ℕ) × (read_all_blobs (magic ++ (le_bytes 4 version ++ (frames blobs ++ tail)))
        ≡ read_blobs (suc fuel) tail blobs)
unfolding read_all_blobs
read_all_blobs-log version blobs tail h =
    let file = magic ++ (le_bytes 4 version ++ (frames blobs ++ tail)) in
    let enough : suc (length file) ≡ length blobs + suc (length file - length blobs) =
      omega (arith, long_enough version blobs tail) in
    (
      length file - length blobs,
      rw (enough, skip_header version (frames blobs ++ tail))
          (read_blobs-frames blobs tail [] (suc (length file - length blobs)) h),
    )
  where
    long_enough :
        (version : ℕ) (blobs : List (List ℕ)) (tail : List ℕ)
        → length blobs ≤ length (magic ++ (le_bytes 4 version ++ (frames blobs ++ tail)))
    long_enough version blobs tail = omega (
      arith,
      length-append magic (le_bytes 4 version ++ (frames blobs ++ tail)),
      length-append (le_bytes 4 version) (frames blobs ++ tail),
      length-append (frames blobs) tail,
      length-frames blobs,
    )
