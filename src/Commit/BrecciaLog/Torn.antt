-- ===== src/Commit/BrecciaLog/Torn.antt =====
-- A log whose last append was cut short.
use lord.Prelude.{
  inl, inr, ℕ, suc, ◌+◌, ◌-◌, ◌^◌, ◌≤◌, ◌<◌, ltb, not, true, none, some, List, [], ◌∷◌, ◌++◌, ◌≡◌,
  refl, ap, ◌∙◌, arith, Bool-cases, length, length-take, take, if◌then◌else◌,
}
use mathlib.Core.List.{append_assoc}
use lord.Index.SatRange.{le_bytes}
use lord.Commit.BrecciaLog.{
  ok, err, unexpected_eof, magic, max_blob_len, read_exact, or_eof, read_blob, next_blob,
  read_blobs, read_all,
}
use lord.Commit.BrecciaLog.Frames.{frame, frames}
use lord.Commit.BrecciaLog.Reading.{eight_bytes, read_length, read_all_blobs-log}
use lord.Commit.BrecciaLog.Written.{Written, Written-IsLog, read_all-log}

read_exact-none : (n : ℕ) (file : List ℕ) → length file < n → read_exact n file ≡ none
unfolding read_exact
read_exact-none n file h = rw (is_short (length file) n h) refl
  where
    is_short : (a b : ℕ) → a < b → ltb a b ≡ true
    is_short a b h = ground arith

take_behind : (n : ℕ) (xs ys : List ℕ) → take (length xs + n) (xs ++ ys) ≡ xs ++ take n ys
take_behind n [] ys = let e : 0 + n ≡ n = omega arith in rw e refl
take_behind n (x ∷ xs) ys =
    let e : suc (length xs) + n ≡ suc (length xs + n) = omega arith in
    rw e (ap (λ zs. x ∷ zs) (take_behind n xs ys))

torn_length :
    (fuel n : ℕ) (blob : List ℕ) (blobs : List (List ℕ))
    → n < 8
    → read_blobs (suc fuel) (take n (frame blob)) blobs ≡ ok blobs
unfolding read_blobs next_blob
torn_length fuel n blob blobs h =
    rw (read_exact-none 8 (take n (frame blob)) (omega (arith, length-take n (frame blob)))) refl

take-frame :
    (n : ℕ) (blob : List ℕ) → take (8 + n) (frame blob) ≡ le_bytes 8 (length blob) ++ take n blob
unfolding le_bytes
take-frame n blob = take_behind n (le_bytes 8 (length blob)) blob

torn_blob :
    (fuel n : ℕ) (blob : List ℕ) (blobs : List (List ℕ))
    → n < length blob
    → length blob ≤ 2 ^ 20
    → read_blobs (suc fuel) (take (8 + n) (frame blob)) blobs ≡ err unexpected_eof
unfolding read_blobs next_blob read_blob or_eof max_blob_len
torn_blob fuel n blob blobs h k =
    rw
      (
        take-frame n blob,
        read_length (length blob) (take n blob),
        eight_bytes (length blob) k,
        fits (length blob) k,
        read_exact-none (length blob) (take n blob) (omega (arith, length-take n blob)),
      )
      refl
  where
    fits : (n : ℕ) → n ≤ 2 ^ 20 → not (ltb (2 ^ 20) n) ≡ true
    fits n h = ground arith

-- Where an append is cut short after some of its bytes, the log reads as if nothing had been appended as
-- long as the eight bytes of the length are not whole; from there on the cut is an error of the whole
-- reading, and the earlier blobs are not read either.
pub read_all_torn :
    (version : ℕ) (file : List ℕ) (blobs : List (List ℕ)) (blob : List ℕ) (n : ℕ)
    → Written version file blobs
    → length blob ≤ 2 ^ 20
    → n < 8 + length blob
    → read_all (some (file ++ take n (frame blob)))
      ≡ (if ltb n 8 then ok blobs else err unexpected_eof)
read_all_torn version file blobs blob n w k h =
    let log = Written-IsLog w in
    let (fuel, read) = read_all_blobs-log version blobs (take n (frame blob)) log.short in
    let parts : file ++ take n (frame blob)
        ≡ magic ++ (le_bytes 4 version ++ (frames blobs ++ take n (frame blob))) =
      rw log.bytes (simp append_assoc) in
    rw parts
      (read_all-log version (frames blobs ++ take n (frame blob)) _ log.known (read ∙ torn fuel))
  where
    torn :
        (fuel : ℕ)
        → read_blobs (suc fuel) (take n (frame blob)) blobs
          ≡ (if ltb n 8 then ok blobs else err unexpected_eof)
    torn fuel = elim (Bool-cases (ltb n 8)) [
      | inl e ↦ rw e (torn_length fuel n blob blobs (ground arith))
      | inr e ↦
          let m : n ≡ 8 + (n - 8) = ground arith in
          rw e (rw m (torn_blob fuel (n - 8) blob blobs (ground arith) k))
    ]
