-- ===== src/Commit/Entry/Forms.antt =====
-- Entries of both forms are told apart and read back.
use lord.Prelude.{
  suc, ℕ, ◌≤◌, ltb, not, ◌&&◌, Bool, true, false, some, List, [], ◌∷◌, ◌++◌, ◌≡◌, refl, arith,
  length,
}
use lord.Commit.Entry.{
  CommitmentEntry, CommitmentEntryV2, v1, v2, entry_v2_magic, Bincode, starts_with, as_v1, as_v2,
  encode_entry, encode_entry_v2, decode_breccia_blob,
}

starts_with-append :
    (xs ys zs : List ℕ)
    → length xs ≤ length ys
    → starts_with xs ys ≡ false
    → starts_with xs (ys ++ zs) ≡ false
unfolding starts_with
starts_with-append [] ys zs l h = absurd cc
starts_with-append (x ∷ xs) [] zs l h = absurd (omega arith)
starts_with-append (x ∷ xs) (y ∷ ys) zs l h = ground (arith, starts_with-append xs ys zs)

and_false : (c : Bool) → (c && false) ≡ false
and_false true = refl
and_false false = refl

tag_long : (bytes : List ℕ) → not (ltb (suc (suc (suc (suc (length bytes))))) 4) ≡ true
tag_long bytes = ground arith

module _ (bincode : Bincode) (entry : CommitmentEntry) (entry_v2 : CommitmentEntryV2) where
  -- With a `bincode` that reads back the two entries as it wrote them, and writes the root of an entry of
  -- the first form at the start, the entry of the second form is read back as such, and so is the entry of
  -- the first form where its root does not start with the tag of the second.
  pub decode_breccia_blob-encode :
      (rest : List ℕ)
      → bincode.deserialize (bincode.serialize entry) ≡ some entry
      → bincode.deserialize_v2 (bincode.serialize_v2 entry_v2) ≡ some entry_v2
      → bincode.serialize entry ≡ entry.bao_root ++ rest
      → 4 ≤ length entry.bao_root
      → starts_with entry_v2_magic entry.bao_root ≡ false
      → (decode_breccia_blob bincode (encode_entry bincode entry) ≡ some (v1 entry))
        × (decode_breccia_blob bincode (encode_entry_v2 bincode entry_v2) ≡ some (v2 entry_v2))
  unfolding decode_breccia_blob encode_entry encode_entry_v2
  decode_breccia_blob-encode rest reads_back reads_back_v2 root_first long untagged =
      let first : starts_with entry_v2_magic (bincode.serialize entry) ≡ false =
        rw root_first (starts_with-append entry_v2_magic entry.bao_root rest long untagged) in
      (
        rw (first, and_false (not (ltb (length (bincode.serialize entry)) 4)), reads_back)
            (unfold as_v1 in refl),
        rw (tag_long (bincode.serialize_v2 entry_v2), reads_back_v2)
            (unfold starts_with as_v2 in refl),
      )
