-- ===== src/Ltp/Mempool/SoundQueue.antt =====
-- What makes a queue of the mempool sound, and what keeps it so.
use mathlib.Core.Option.{some-injective, none-ne-some}
use lord.Prelude.{
  ℕ, zero, suc, ◌-◌, ◌≤◌, ◌≡◌, refl, sym, ◌⊎◌, inl, inr, false, some, [], ◌∷◌, ◌++◌, length, drop,
  leb, ◌==◌, arith, Bool-cases, Option-cases,
}
use lord.Ltp.Mempool.{
  LtpQueueKind, commitment, storage, market, LtpMempoolEntry, Entries, LtpMempool, queue, any_start,
  retain, remove_first,
}

-- The digests of the entries are all different.
abbrev pub AllDistinct : Entries → Type 0
AllDistinct [] = Unit
AllDistinct (e ∷ entries) = (any_start e.start_digest entries ≡ false) × AllDistinct entries

-- Every entry is for this queue.
abbrev pub AllOf : LtpQueueKind → Entries → Type 0
AllOf kind [] = Unit
AllOf kind (e ∷ entries) = (e.queue ≡ kind) × AllOf kind entries

pub record IsSoundQueue (depth : ℕ) (kind : LtpQueueKind) (entries : Entries) : Type 0 where
  pub distinct : AllDistinct entries
  pub shallow : length entries ≤ depth
  pub own : AllOf kind entries

pub record IsSound (mempool : LtpMempool) : Type 0 where
  pub commitments : IsSoundQueue mempool.profile.max_depth commitment mempool.snapshot.commitment
  pub storages : IsSoundQueue mempool.profile.max_depth storage mempool.snapshot.storage
  pub markets : IsSoundQueue mempool.profile.max_depth market mempool.snapshot.market

pub IsSound-queue :
    (kind : LtpQueueKind) (m : LtpMempool)
    → IsSound m
    → IsSoundQueue m.profile.max_depth kind (queue kind m.snapshot)
unfolding queue
IsSound-queue commitment m s = s.commitments
IsSound-queue storage m s = s.storages
IsSound-queue market m s = s.markets

pub any_start-append :
    (digest : ℕ) (entries : Entries) (e : LtpMempoolEntry)
    → any_start digest entries ≡ false
    → (e.start_digest == digest) ≡ false
    → any_start digest (entries ++ (e ∷ [])) ≡ false
unfolding any_start
any_start-append digest [] e h k = ground arith
any_start-append digest (x ∷ entries) e h k = ground (arith, any_start-append digest entries e)

pub distinct-append :
    (entries : Entries) (e : LtpMempoolEntry)
    → AllDistinct entries
    → any_start e.start_digest entries ≡ false
    → AllDistinct (entries ++ (e ∷ []))
unfolding any_start
distinct-append [] e h k = (refl, tt)
distinct-append (x ∷ entries) e h k = (
  any_start-append x.start_digest entries e h.0 (ground arith),
  distinct-append entries e h.1 (ground arith),
)

pub own-append :
    (kind : LtpQueueKind) (entries : Entries) (e : LtpMempoolEntry)
    → AllOf kind entries
    → e.queue ≡ kind
    → AllOf kind (entries ++ (e ∷ []))
own-append kind [] e h k = (k, tt)
own-append kind (x ∷ entries) e h k = (h.0, own-append kind entries e h.1 k)

pub distinct-drop : (n : ℕ) (entries : Entries) → AllDistinct entries → AllDistinct (drop n entries)
distinct-drop zero entries h = h
distinct-drop (suc n) [] h = tt
distinct-drop (suc n) (x ∷ entries) h = distinct-drop n entries h.1

pub own-drop :
    (kind : LtpQueueKind) (n : ℕ) (entries : Entries)
    → AllOf kind entries
    → AllOf kind (drop n entries)
own-drop kind zero entries h = h
own-drop kind (suc n) [] h = tt
own-drop kind (suc n) (x ∷ entries) h = own-drop kind n entries h.1

pub any_start-retain :
    (digest cutoff : ℕ) (entries : Entries)
    → any_start digest entries ≡ false
    → any_start digest (retain cutoff entries) ≡ false
unfolding any_start retain
any_start-retain digest cutoff [] h = refl
any_start-retain digest cutoff (x ∷ entries) h =
    ground (arith, any_start-retain digest cutoff entries)

pub retain-IsSoundQueue :
    (depth cutoff : ℕ) (kind : LtpQueueKind) (entries : Entries)
    → IsSoundQueue depth kind entries
    → IsSoundQueue depth kind (retain cutoff entries)
unfolding retain
retain-IsSoundQueue depth cutoff kind [] h = h
retain-IsSoundQueue depth cutoff kind (x ∷ entries) h =
    let rest =
      retain-IsSoundQueue (depth - 1) cutoff kind entries
        (record { distinct = h.distinct.1; shallow = omega (arith, h.shallow); own = h.own.1 }) in
    elim (Bool-cases (leb cutoff x.enqueued_at)) [
      | inl e ↦ rw e (record {
        distinct = (any_start-retain x.start_digest cutoff entries h.distinct.0, rest.distinct);
        shallow = omega (arith, h.shallow, rest.shallow);
        own = (h.own.0, rest.own);
      })
      | inr e ↦ rw e (record {
        distinct = rest.distinct;
        shallow = omega (arith, rest.shallow);
        own = rest.own;
      })
    ]

pub remove_first_cases :
    (d : ℕ) (x : LtpMempoolEntry) (entries rest : Entries)
    → remove_first d (x ∷ entries) ≡ some rest
    → (rest ≡ entries) ⊎ ((r : Entries) × (remove_first d entries ≡ some r) × (rest ≡ x ∷ r))
unfolding remove_first
remove_first_cases d x entries rest e = elim (Bool-cases (x.start_digest == d)) [
  | inl c ↦ inl (sym (some-injective _ _ (rw c at e)))
  | inr c ↦ elim (Option-cases (remove_first d entries)) [
    | inl n ↦ absurd (none-ne-some _ (rw (c, n) at e))
    | inr (r, q) ↦ inr (r, q, sym (some-injective _ _ (rw (c, q) at e)))
  ]
]

pub any_start-remove :
    (digest d : ℕ) (entries rest : Entries)
    → remove_first d entries ≡ some rest
    → any_start digest entries ≡ false
    → any_start digest rest ≡ false
unfolding any_start
any_start-remove digest d [] rest e h = absurd (unfold remove_first in none-ne-some _ e)
any_start-remove digest d (x ∷ entries) rest e h = elim (remove_first_cases d x entries rest e) [
  | inl q ↦ ground arith
  | inr (r, f, q) ↦ ground (arith, any_start-remove digest d entries r f)
]

pub remove_first-IsSoundQueue :
    (depth d : ℕ) (kind : LtpQueueKind) (entries rest : Entries)
    → remove_first d entries ≡ some rest
    → IsSoundQueue depth kind entries
    → IsSoundQueue depth kind rest
remove_first-IsSoundQueue depth d kind [] rest e h =
    absurd (unfold remove_first in none-ne-some _ e)
remove_first-IsSoundQueue depth d kind (x ∷ entries) rest e h =
    let tail : IsSoundQueue (depth - 1) kind entries = record {
      distinct = h.distinct.1;
      shallow = omega (arith, h.shallow);
      own = h.own.1;
    } in
    elim (remove_first_cases d x entries rest e) [
      | inl q ↦ rw q (record {
        distinct = tail.distinct;
        shallow = omega (arith, tail.shallow);
        own = tail.own;
      })
      | inr (r, f, q) ↦
          let more = remove_first-IsSoundQueue (depth - 1) d kind entries r f tail in
          rw q (record {
            distinct = (any_start-remove x.start_digest d entries r f h.distinct.0, more.distinct);
            shallow = omega (arith, more.shallow, h.shallow);
            own = (h.own.0, more.own);
          })
    ]
