-- ===== src/Ltp/Mempool/Priority.antt =====
-- The digests that the calendar drains first.
use mathlib.Core.List.Perm
use mathlib.Core.List.{Perm}
use lord.Prelude.{◌≤◌, ◌<◌, ◌≡◌, refl, inl, inr, ◌⊎◌, true, false, [], ◌∷◌, arith, Bool-cases}
use lord.Ltp.Mempool.{
  LtpMempoolEntry, Entries, LtpMempool, before, insert, sort, start_digests,
  commitment_start_digests,
}

-- `a` may stand before `b`: a higher priority, or the same and no later.
abbrev pub IsBefore : LtpMempoolEntry → LtpMempoolEntry → Type 0
IsBefore a b =
    (b.priority < a.priority) ⊎ ((a.priority ≡ b.priority) × (a.enqueued_at ≤ b.enqueued_at))

abbrev pub AllAfter : LtpMempoolEntry → Entries → Type 0
AllAfter e [] = Unit
AllAfter e (x ∷ entries) = IsBefore e x × AllAfter e entries

-- Every entry may stand before every later one.
abbrev pub IsSorted : Entries → Type 0
IsSorted [] = Unit
IsSorted (e ∷ entries) = AllAfter e entries × IsSorted entries

before_sound : (a b : LtpMempoolEntry) → before a b ≡ true → IsBefore a b
unfolding before
before_sound a b h = ground arith

before_total : (a b : LtpMempoolEntry) → before a b ≡ false → IsBefore b a
unfolding before
before_total a b h = ground arith

IsBefore-trans : (a b c : LtpMempoolEntry) → IsBefore a b → IsBefore b c → IsBefore a c
IsBefore-trans a b c h k = ground arith

AllAfter-trans :
    (a b : LtpMempoolEntry) (entries : Entries)
    → IsBefore a b
    → AllAfter b entries
    → AllAfter a entries
AllAfter-trans a b [] h k = tt
AllAfter-trans a b (x ∷ entries) h k =
    (IsBefore-trans a b x h k.0, AllAfter-trans a b entries h k.1)

AllAfter-insert :
    (e x : LtpMempoolEntry) (entries : Entries)
    → IsBefore e x
    → AllAfter e entries
    → AllAfter e (insert x entries)
unfolding insert
AllAfter-insert e x [] h k = (h, tt)
AllAfter-insert e x (y ∷ entries) h k = elim (Bool-cases (before x y)) [
  | inl b ↦ rw b (h, k)
  | inr b ↦ rw b (k.0, AllAfter-insert e x entries h k.1)
]

insert-IsSorted :
    (e : LtpMempoolEntry) (entries : Entries) → IsSorted entries → IsSorted (insert e entries)
unfolding insert
insert-IsSorted e [] h = (tt, tt)
insert-IsSorted e (x ∷ entries) h = elim (Bool-cases (before e x)) [
  | inl b ↦ rw b ((before_sound e x b, AllAfter-trans e x entries (before_sound e x b) h.0), h)
  | inr b ↦
      rw b (AllAfter-insert x e entries (before_total e x b) h.0, insert-IsSorted e entries h.1)
]

sort-IsSorted : (entries : Entries) → IsSorted (sort entries)
unfolding sort
sort-IsSorted [] = tt
sort-IsSorted (e ∷ entries) = insert-IsSorted e (sort entries) (sort-IsSorted entries)

insert-Perm : (e : LtpMempoolEntry) (entries : Entries) → Perm (insert e entries) (e ∷ entries)
unfolding insert
insert-Perm e [] = Perm.refl (e ∷ [])
insert-Perm e (x ∷ entries) = elim (Bool-cases (before e x)) [
  | inl b ↦ rw b (Perm.refl (e ∷ x ∷ entries))
  | inr b ↦ rw b (Perm.trans (Perm.cons x (insert-Perm e entries)) (Perm.swap e x entries))
]

sort-Perm : (entries : Entries) → Perm (sort entries) entries
unfolding sort
sort-Perm [] = Perm.refl []
sort-Perm (e ∷ entries) =
    Perm.trans (insert-Perm e (sort entries)) (Perm.cons e (sort-Perm entries))

-- The digests given to the calendar are those of the commitment queue, each as often, in an order of
-- entries in which a higher priority stands first and, among equals, an older entry.
pub commitment_start_digests-IsSorted :
    (m : LtpMempool)
    → (sorted : Entries) × (commitment_start_digests m ≡ start_digests sorted)
      × Perm sorted m.snapshot.commitment
      × IsSorted sorted
unfolding commitment_start_digests
commitment_start_digests-IsSorted m = (
  sort m.snapshot.commitment,
  refl,
  sort-Perm m.snapshot.commitment,
  sort-IsSorted m.snapshot.commitment,
)
