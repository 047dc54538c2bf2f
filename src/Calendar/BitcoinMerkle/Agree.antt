-- ===== src/Calendar/BitcoinMerkle/Agree.antt =====
-- A block's tree is built like the calendar's: the two ways to pair an odd digest agree.
use mathlib.Core.List.{append_assoc}
use lord.Prelude.{
  ℕ, zero, suc, ◌+◌, ◌-◌, ◌*◌, ◌/◌, ◌%◌, ◌≤◌, ◌<◌, ◌≡◌, refl, sym, ◌∙◌, some, List, [], ◌∷◌, ◌++◌,
  length, get_elem?, ◌==◌, min, arith, dec_lt, length-append,
}
use lord.Calendar.Merkle.{Digest, MerklePath, sibling_idx, path_loop, root_loop}
use lord.Calendar.Merkle.Tree.{padded, above, length-above, join, sibling_lem}
use lord.Calendar.Merkle.Inclusion.{fold_path, path_round, path_done, loops_lem, within}
use lord.Calendar.BitcoinMerkle.{
  bitcoin_merkle_pair, next_level, sibling_of, bitcoin_loop, bitcoin_tx_merkle_path,
}

get-append :
    (front rest : List Digest) (k : ℕ)
    → get_elem? (front ++ rest) (length front + k) ≡ get_elem? rest k
get-append [] rest k = let e : 0 + k ≡ k = omega arith in rw e refl
get-append (d ∷ front) rest k =
    let e : suc (length front) + k ≡ suc (length front + k) = omega arith in
    rw e (get-append front rest k)

at_index :
    (front rest : List Digest) (i k : ℕ) (d : Digest)
    → i ≡ length front + k
    → get_elem? rest k ≡ some d
    → get_elem? (front ++ rest) i ≡ some d
at_index front rest i k d e h = rw (e, get-append front rest k) h

next_step :
    (pair : Digest → Digest → Digest) (level : List Digest) (rounds p : ℕ) (a b : Digest)
    (next : List Digest)
    → get_elem? level (p * 2) ≡ some a
    → get_elem? level (min (p * 2 + 1) (length level - 1)) ≡ some b
    → next_level pair level rounds (p + 1) ≡ some next
    → next_level pair level (suc rounds) p ≡ some (pair a b ∷ next)
unfolding next_level
next_step pair level rounds p a b next e f g = rw e (rw f (rw g))

-- The rounds from a pair on.
next_from :
    (pair : Digest → Digest → Digest) (rest front : List Digest) (p rounds : ℕ)
    → length front ≡ p * 2
    → rounds ≡ (length rest + 1) / 2
    → next_level pair (front ++ rest) rounds p ≡ some (above pair rest)
next_from pair [] front p zero h r = unfold next_level in refl
next_from pair [] front p (suc rounds) h r = absurd (omega arith)
next_from pair (a ∷ rest) front p zero h r = absurd (omega arith)
next_from pair (a ∷ []) front p (suc rounds) h r =
    let l = length-append front (a ∷ []) in
    let done : rounds ≡ 0 = omega arith in
    next_step pair (front ++ (a ∷ [])) rounds p a a []
      (at_index front (a ∷ []) (p * 2) 0 a (omega arith) refl)
      (at_index front (a ∷ []) (min (p * 2 + 1) (length (front ++ (a ∷ [])) - 1)) 0 a
        (omega (arith, l)) refl)
      (rw done (unfold next_level in refl))
next_from pair (a ∷ b ∷ rest) front p (suc rounds) h r =
    let l = length-append front (a ∷ b ∷ rest) in
    let m = length-append front (a ∷ b ∷ []) in
    let more =
      next_from pair rest (front ++ (a ∷ b ∷ [])) (p + 1) rounds (omega arith) (omega arith) in
    next_step pair (front ++ (a ∷ b ∷ rest)) rounds p a b (above pair rest)
      (at_index front (a ∷ b ∷ rest) (p * 2) 0 a (omega arith) refl)
      (at_index front (a ∷ b ∷ rest) (min (p * 2 + 1) (length (front ++ (a ∷ b ∷ rest)) - 1)) 1 b
        (omega (arith, l)) refl)
      (rw append_assoc at more)

next_level-above :
    (pair : Digest → Digest → Digest) (level : List Digest)
    → next_level pair level ((length level + 1) / 2) 0 ≡ some (above pair level)
next_level-above pair level = next_from pair level [] 0 ((length level + 1) / 2) refl refl

sibling_two :
    (len n : ℕ) → n < len → sibling_of (suc (suc len)) (suc (suc n)) ≡ suc (suc (sibling_of len n))
unfolding sibling_of
sibling_two len n h = ground arith

calendar_two : (n : ℕ) → sibling_idx (suc (suc n)) ≡ suc (suc (sibling_idx n))
unfolding sibling_idx
calendar_two n = ground arith

sibling_first : (n : ℕ) → sibling_of (suc (suc n)) 0 ≡ 1
unfolding sibling_of
sibling_first n = ground arith

sibling_agree :
    (level : List Digest) (i : ℕ)
    → i < length level
    → get_elem? level (sibling_of (length level) i) ≡ get_elem? (padded level) (sibling_idx i)
sibling_agree [] i h = absurd (omega arith)
sibling_agree (a ∷ []) zero h = unfold sibling_of sibling_idx in refl
sibling_agree (a ∷ []) (suc i) h = absurd (omega arith)
sibling_agree (a ∷ b ∷ level) zero h =
    rw (sibling_first (length level)) (unfold sibling_idx in refl)
sibling_agree (a ∷ b ∷ level) (suc zero) h = unfold sibling_of sibling_idx in refl
sibling_agree (a ∷ b ∷ level) (suc (suc i)) h =
    rw (sibling_two (length level) i (omega arith), calendar_two i)
      (sibling_agree level i (omega arith))

module _ (pair : Digest → Digest → Digest) where
  bitcoin_round :
      (fuel : ℕ) (level : List Digest) (idx : ℕ) (path : MerklePath) (y : Digest)
      → 1 < length level
      → idx < length level
      → get_elem? (padded level) (sibling_idx idx) ≡ some y
      → bitcoin_loop pair (suc fuel) level idx path
        ≡ bitcoin_loop pair fuel (above pair level) (idx / 2) (path ++ ((idx % 2 == 0, y) ∷ []))
  unfolding bitcoin_loop
  bitcoin_round fuel level idx path y h k e =
      rw (sibling_agree level idx k) (rw (e, next_level-above pair level) (ground arith))

  bitcoin_done :
      (fuel : ℕ) (level : List Digest) (idx : ℕ) (path : MerklePath)
      → length level ≤ 1
      → bitcoin_loop pair fuel level idx path ≡ some path
  unfolding bitcoin_loop
  bitcoin_done zero level idx path h = ground arith
  bitcoin_done (suc fuel) level idx path h = ground arith

  bitcoin_loop_lem :
      (fuel : ℕ) (level : List Digest) (idx : ℕ) (x : Digest) (path : MerklePath)
      → length level ≤ suc fuel
      → get_elem? level idx ≡ some x
      → bitcoin_loop pair fuel level idx path ≡ path_loop pair fuel level idx path
  bitcoin_loop_lem zero level idx x path h e =
      bitcoin_done zero level idx path h ∙ sym (path_done pair zero level idx path h)
  bitcoin_loop_lem (suc fuel) level idx x path h e = elim (dec_lt 1 (length level)) [
    | yes more ↦
        let (y, s, j) = sibling_lem pair level idx x e in
        bitcoin_round fuel level idx path y more (within level idx x e) s
        ∙ bitcoin_loop_lem fuel (above pair level) (idx / 2) (join pair idx x y)
            (path ++ ((idx % 2 == 0, y) ∷ [])) (omega (arith, length-above pair level)) j
        ∙ sym (path_round pair fuel level idx path y more s)
    | no few ↦
        bitcoin_done (suc fuel) level idx path (omega arith)
        ∙ sym (path_done pair (suc fuel) level idx path (omega arith))
  ]

-- For the transaction at an index the path exists, and folding it from the transaction's hash gives
-- the root of the tree that pairs the digests two by two and an odd last one with itself.
pub bitcoin_tx_merkle_path-root :
    (hash : List ℕ → List ℕ) (leaves : List Digest) (index : ℕ) (leaf : Digest)
    → get_elem? leaves index ≡ some leaf
    → (root : Digest) × (path : MerklePath) × (root_loop
          (bitcoin_merkle_pair hash)
          (length leaves)
          leaves
        ≡ some (root ∷ []))
      × (bitcoin_tx_merkle_path hash leaves index ≡ some (some path))
      × (fold_path (bitcoin_merkle_pair hash) leaf path ≡ root)
unfolding bitcoin_tx_merkle_path
bitcoin_tx_merkle_path-root hash leaves index leaf e =
    let pair = bitcoin_merkle_pair hash in
    let l = loops_lem pair (length leaves) leaves index leaf (omega arith) e in
    let same = bitcoin_loop_lem pair (length leaves) leaves index leaf [] (omega arith) e in
    let found : index < length leaves = within leaves index leaf e in
    (l.root, l.path, l.root_found, rw (same, l.path_found []) (ground arith), l.folds)
